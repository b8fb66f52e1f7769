-- ===== src/Lib.antt =====
-- Verification of the core of ixion, a library that calculates the formulas of spreadsheets.
--
-- The parts. A client registers formula cells. Their text goes through the tokenizer and the formula
-- parser, which puts strings into a pool, and each cell is told to the dirty cell tracker as a listener
-- of the ranges it refers to. After a change the tracker finds the cells to calculate again, and a
-- depth-first search brings them into the order of calculation. Addresses and ranges are the data that all share.
--
-- The files.
--   Address: the types and operators of src/libixion/address.cpp. A coordinate is an integer of the model;
--     the sums of coordinates, which the code leaves unchecked in 32 bits, do not wrap around here. The
--     constructor of a range from spans tells where one overflows.
--   DepthFirstSearch: the class template of src/include/depth_first_search.hpp (init, run, visit). The
--     recursion of `visit` runs on fuel, one unit a level; one more than the number of cells is enough,
--     since each level paints a white cell gray.
--   DirtyCellTracker: the class of src/libixion/dirty_cell_tracker.cpp. Its R-tree, mdds::rtree, is a
--     parameter, the record Rtree of operations and their laws; the order of a loop over an unordered set
--     is a parameter too. The `while` loops run on fuel, one unit a round. Two rounds more than there are
--     sources on record are enough: each round but two finds a source that was not dirty before.
--   FormulaLexer: the tokenizer of src/libixion/formula_lexer.cpp. The conversion of a numeral to a
--     floating-point number is a parameter. One round more than there are characters is enough.
--   FormulaInterpreter: src/libixion/formula_interpreter.cpp. Tokens and Names are `init_tokens` and
--     `expand_named_expression`; Grammar has the recursive descent, one function for each of the methods, and
--     Array the inline arrays. The values of the stack, the operators on them, the built-in functions and the
--     tables are the record Operations, an interface. The expansion runs on fuel, one unit for each level of
--     names: two more than there are names are enough. The descent runs on fuel as well: six units a token and
--     five more are enough. Calls of a session handler change nothing and are left out. Values has the comparison of
--     numbers and strings, over floating-point numbers and matrices as parameters, and what a cell gives to the
--     interpreter; Values/Result has `pop_result`, and Values/Stack the pops of
--     src/libixion/formula_value_stack.cpp.
--   FormulaNameResolver: the A1 form of an address and the names of sheets in
--     src/libixion/formula_name_resolver.cpp. Where the digits of a row overflow 32 bits, what
--     is parsed is undefined.
--   FormulaParser: the class of src/libixion/formula_parser.cpp, with the formula tokens of
--     include/ixion/formula_tokens.hpp. The resolver of names is a parameter. One round more than there are
--     tokens is enough.
--   StringPool: `safe_string_pool` of src/libixion/model_context_impl.cpp. Identifiers have 32 bits.
--   ModelContext: the sheets and the named expressions of src/libixion/model_context_impl.cpp.
--   AddressIterator: src/libixion/address_iterator.cpp, whose asserts, left out of a release build, are no
--     part of the steps.
--   Utf8: the positions of characters, src/libixion/utf8.cpp.
--   StdSet, UnorderedSet: std::set and std::unordered_set, as far as the code uses them.
--   Prelude: lists, tests and integers that the parts share. Tests: runs on small inputs.
--
-- Not modelled: the rest of the name resolvers, the operators on matrices, the product and concatenation of values, the
-- built-in functions and the cells of the model context; printing and logging; the threads of the cell queue; the Vulkan engine, the Python
-- binding and the command-line tools.
pub mod Prelude
pub mod StdSet
pub mod UnorderedSet
pub mod Address
pub mod AddressIterator
pub mod DepthFirstSearch
pub mod DirtyCellTracker
pub mod FormulaInterpreter
pub mod FormulaLexer
pub mod StringPool
pub mod FormulaNameResolver
pub mod FormulaParser
pub mod Utf8
pub mod ModelContext
pub mod Tests
