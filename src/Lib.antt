-- ===== src/Lib.antt =====
-- llvm2c translates LLVM bitcode to C. A parser reads the module and makes, pass by pass, a
-- Program: types, functions, blocks and expressions; further passes rewrite the expressions; a
-- writer prints them. This library models the types, the expressions, the translation of
-- comparisons, arithmetic, shifts, casts, element accesses, switches, constants, branches and loops,
-- the rewriting passes, the order of global variables, the names that a function makes, the
-- choice of headers, and the printing of expressions and structs, and measures the translation by C's integer types and by LLVM's predicates, addresses, switches and branches.
--
-- The files, with the code that each is about:
--   Prelude         library names passed on, Boolean tests, lists, texts as lists of bytes
--   Types           type/Type.h, type/Type.cpp: the type objects and their constructors;
--                   Types/Kinds the classof functions, Types/Print toString, sizeToString and
--                   surroundName, Types/Declarators the theorems on what is printed
--   TypeHandler     type/TypeHandler.h, type/TypeHandler.cpp: basic types, toggleSignedness,
--                   setSigned, setUnsigned, getBinaryType, getType on integers, getStructName,
--                   pointerTo, getTypeDefName; theorems in Signedness, Cache and StructName
--   Exprs           expr/Expr.h, expr/UnaryExpr.h, expr/BinaryExpr.h and their .cpp files
--   Visitor         parser/SimplifyingExprVisitor.cpp, for any simplify; Meaning, Settle and
--                   Typing hold what a pass gets from its simplify
--   RefDeref        parser/refDeref.cpp
--   Arrowify        parser/arrowify.cpp; Typing the types after refDeref and arrowify
--   RedundantCasts  parser/deleteRedundantCasts.cpp; Values, Casts and Comparisons the theorems
--   SignCasts       parser/addSignCasts.cpp; Signs, Settle and Compare the theorems
--   Predicates      parser/compare.h, parser/negCmpInst.h
--   Instructions    parser/createExpressions.cpp: parseFCmpInstruction, parseICmpInstruction,
--                   parseFnegInstruction, parseBinaryInstruction, parseShiftInstruction,
--                   parseCastInstruction
--   Gep             parser/createExpressions.cpp: parseGepInstruction; Index what an index moves a
--                   pointer by, Address what the reference points to
--   ParseBreaks     parser/parseBreaks.cpp; Run what statements do, Edges that a block goes on like
--                   LLVM's branch, Entry what a preheader has before its loop, Loops and DoWhile how
--                   a do-while's rounds end, Handled that a block is translated once
--   CFunctions      parser/cfunc.h, parser/determineIncludes.cpp: the tables of C's functions, and
--                   trimPrefix
--   Includes        parser/determineIncludes.cpp, parser/nameFunctions.cpp, and isFunctionPrinted,
--                   functionDeclarations and includes of writer/Writer.cpp; Unprinted the functions that are not printed,
--                   Declared that declarations and headers account for all functions
--   Statements      parser/createExpressions.cpp: canInline (Inline), parseSwitchInstruction
--                   (Switch)
--   Constants       parser/constval.cpp; Integers the texts of integers, Errors which constants
--                   have no expression
--   FuncState       core/Func.cpp: getVarName, addMetadataVarName, createBlockIfNotExist, getBlock
--   GlobalOrder     parser/computeGlobalVarsOrder.cpp: computeTopo and its caller; Order and
--                   Sorted what the order is, Fuel that the search ends
--   PropagateTypes  parser/propagateTypes.cpp; State and Steps the visitor's fields and what a
--                   visit does after its operands, Flags, Extends, Growth and Ready the theorems
--   Blocks          core/Block.h: the table of a function's blocks
--   InlineBlocks    parser/identifyInlinableBlocks.cpp, parser/inlineBlocks.cpp; Meaning, Settled
--                   and Identify the theorems
--   Memcpy          parser/memcpyToAssign.cpp; Meaning what an assignment assigns, Calls which
--                   expressions are replaced
--   Allocas         parser/extractVars.cpp; Extract what it moves
--   ExprWriter      writer/ExprWriter.cpp; Output and Parts the stream and the pieces of text,
--                   Writable what an expression needs to be printed, Brackets, TypeText, Pieces,
--                   Balance and Latches the theorem on brackets
--   Structs         core/Program.cpp: getStruct; writer/Writer.cpp: the declarations and definitions
--                   of structs and unions; Order and Complete the order of the definitions, Cycles
--                   a struct with a pointer to an array of itself
--   CInt            the specification: C's integer types on x86_64, their conversions and
--                   comparisons
--
-- How state is modelled. A `Type*` is an object with an address, so that a comparison of pointers
-- is one of objects. An expression owns its operands: where a pass changes an operand in place, its
-- definition returns the changed expression. An expression that is shared in the program is visited
-- once for each place it stands in, so the passes have theorems that a second visit changes
-- nothing. A variable's Value is shared by all its expressions; the only pass that changes it is
-- propagateTypes, where the changed types are in the state, by name. Where a pass finds an
-- expression by its address, a block is a list of addresses and expressions. A TypeHandler's
-- operations take and return its state. Null pointers, exceptions and failed assertions are `none`,
-- and in propagateTypes a field of the state.
--
-- Bounds: numbers are unbounded (the counters of names, `unsigned` in the code, are taken not to
-- wrap around), and widths appear as remainders by powers of two in CInt. Every
-- definition is structurally recursive but six. The decimal digits of a number have the number as
-- fuel, which is enough since each digit divides it by ten. The search through the initializers
-- has fuel for the variables that it visits, and the number of global
-- variables is enough. The loop of getVarName has fuel for the names that the metadata has taken.
-- The inlining of blocks has fuel for the nesting of inlined blocks, and the printing of latches
-- for that of latch blocks: fuel above a rank that falls from a block to the blocks it names. The
-- definition of structs has fuel above a rank that falls from a struct to those in it.
--
-- Not modelled: reading bitcode and the LLVM API (what a function reads of its instruction is its
-- argument), the passes that only copy data out of the module, their order and the assertions
-- on it, the declarations of arrays with dynamic size (parser/InsertVLADecls.cpp),
-- parser/deleteUnusedVariables.cpp, which erases nothing, of the writer the type definitions, global variables,
-- function heads and bodies and the definitions of intrinsics, and the command line.
-- inlineLoopBlocks in parser/inlineBlocks.cpp is never called, and addCastsToConstants changes
-- nothing.
pub mod Prelude
pub mod Types
pub mod TypeHandler
pub mod Exprs
pub mod CInt
pub mod Visitor
pub mod RefDeref
pub mod Arrowify
pub mod RedundantCasts
pub mod SignCasts
pub mod Predicates
pub mod Instructions
pub mod GlobalOrder
pub mod FuncState
pub mod Blocks
pub mod ExprWriter
pub mod Memcpy
pub mod PropagateTypes
pub mod InlineBlocks
pub mod Allocas
pub mod Gep
pub mod Constants
pub mod Statements
pub mod CFunctions
pub mod Includes
pub mod ParseBreaks
pub mod Structs
