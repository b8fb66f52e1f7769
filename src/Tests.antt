-- ===== src/Tests.antt =====
-- Runs of the definitions on small inputs.
mod Boxes
mod Tracker
mod Search
mod Lexer
mod Cells
mod Iterator
mod Parser
mod Text
mod Sheets
mod Names
mod Calculator
mod Interpreter
mod Resolver
mod Results
mod SheetNames
mod Values
