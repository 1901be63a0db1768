-- ===== src/Lib.antt =====
-- Clever, an interpreter in C++: its resolver, its code generator, its virtual machine and parts of
-- its library.
--
-- A source text is parsed into a tree (core/ast.h); the resolver gives every name an offset into
-- nested environments (core/scope.{h,cc}, core/environment.{h,cc}); core/codegen.cc writes the tree as
-- instructions (core/ir.h, core/opcode.h) through core/irbuilder.h; and core/vm.cc runs these. The
-- operators of the types and the functions of the modules are called by the machine through
-- pointers.
--
-- The files, by the part they model:
--   Prelude, Prelude/*    names of the library passed on, Boolean tests, lists over the native
--                         numbers, bit operations.
--   Base64, Base64/*      modules/std/crypto/base64.h: base64_encode and base64_decode are
--                         `base64Encode` and `base64Decode`. Characters and bytes are numbers; the sign
--                         of `char` is `widen`, the 64 bits of `long` are written out as `% 2 ^ 64`.
--                         An access out of range is `none`.
--   Ir                    core/opcode.h and core/ir.h, without source locations.
--   Store, Store/*        core/value.{h,cc} and core/environment.{h,cc}. A `Value*` is an index into
--                         the cells of a store, an `Environment*` an index into its environments, so
--                         that two environments can share a cell. `get_value`, `clone` and `activate`
--                         are the methods of those names.
--   Scope, Scope/*        core/scope.{h,cc}. A scope with its parents is a list, innermost first;
--                         interned names are numbers.
--   Vm, Vm/*              core/vm.{h,cc} and core/cexception.h. Vm.antt holds the state and the fetching
--                         of operands, Vm/Natives.antt the interface of what the machine calls through
--                         pointers, Vm/Call.antt calls and returns, Vm/Operators.antt assignment, jumps
--                         and operators, Vm/Exceptions.antt throwing, Vm/Members.antt the members of
--                         types and objects (core/type.{h,cc}), Vm/Objects.antt and Vm/Instances.antt
--                         the instructions on objects, Vm/Step.antt the dispatch on the opcode (`step`,
--                         `run`), Vm/Nested.antt `runFunction`. An error of the machine is a value of `Error`.
--   Codegen, Codegen/*    core/ast.h (Ast), core/irbuilder.h and the stacks of core/codegen.h
--                         (Builder), and core/codegen.cc: a function for every kind of node
--                         (Expressions, Statements), and `visit` (Visit), which walks the tree. A
--                         reference to an instruction is its address.
--   Resolver, Resolver/*  core/resolver.{h,cc} and core/astvisitor.cc. Resolver/Source.antt is the tree
--                         of core/ast.h with names, Resolver.antt the state (`m_scope` and its parents,
--                         `m_stack`, the memory) and its steps, Resolver/Handlers.antt and
--                         Resolver/Visit.antt the `visit` of every kind of node, which gives a tree of
--                         Codegen/Ast.antt. An error of the compiler is a value of `Error`, a call on a
--                         null operand and other undefined behaviour have outcomes of their own.
--   Types, Types/*        modules/std/core/int.{h,cc} (Int) and array.{h,cc} (Array; Range;
--                         Iterator for the subscript and the iterators; Each for `each`), bool.cc
--                         (Bool), str.cc (Str, Str/*; Text is what it uses of std::string), map.{h,cc}
--                         (Map), and check_args of core/clever.cc (Args). A `long` is its 64-bit
--                         pattern; Types/Signed.antt says which integer that is. Doubles and strings
--                         are parameters. An array is the list of what its pointers point to, `none`
--                         for a null pointer.
--   Evaluator, Evaluator/* core/evaluator.cc and core/asttransformer.h on the tree of
--                         Resolver/Source.antt.
--   Collection, Collection/*
--                         modules/std/collection/cqueue.cc, cstack.cc and cset.{h,cc} (Sets): queues, stacks
--                         and sets, as lists; Ordered is what they use of std::set.
--   Events, Events/*      modules/std/events/events.{h,cc}: the signals, the requisitions and the handler.
--                         The handler holds the lock for a whole round over its queue, so the threads
--                         take turns; the functions it calls are assumed not to use the object. The
--                         arguments are the caller's pointers, as in the queue of the program.
--
-- Fuel: `run` executes at most `fuel` instructions, since a program need not end; a run that is not
-- over is `none`. `clone` has fuel for the chain of temporary environments; `activate` gives it two,
-- which is enough since a temporary environment owns none. The loop of Array.range has the size of the
-- array and two more, which is enough by the result below. All other recursion is structural.
--
-- Not modelled: the parser and the scanner, which are generated; imports; Double; the other
-- modules; class definitions; reference counts and the release of memory; the locations and texts
-- of messages; threads. The machine's lock is a flag that cannot be taken twice.
pub mod Prelude
pub mod Base64
pub mod Ir
pub mod Store
pub mod Scope
pub mod Vm
pub mod Codegen
pub mod Resolver
pub mod Types
pub mod Evaluator
pub mod Collection
pub mod Events
