-- ===== src/Lib.antt =====
-- TFA finds the targets of indirect calls in LLVM bitcode. This library models the parts of
-- src/lib that decide them, and proves what the decisions mean.
--
-- The parts, and how they work together:
--   Common     Sets, maps, text and Boolean tests (`std::set`, `std::map`, `std::string`).
--   Worklist   The loop over a queue with a visited set that most analyses are built from, with
--              what a run visits (Worklist.Reach) and that it ends (Worklist.Correct).
--   Tbaa       utils/TBAATools.cc: may two access tags name one memory location?
--   Alias      AliasAnalysis/AliasAnalysis.h: alias nodes in a context. Alias.Graph is
--              AliasAnalysisTools.cc (`mergeNode`, `checkNodeConnectivity`) with the cluster search
--              of InterAliasAnalysis.cc; Alias.Insts is InstHandler.cc and `analyzeFunction`.
--              `mergeNode` asks Tbaa before it joins two nodes.
--   Cha        CHABuilder/CHABuilder.cc and CHABuilderTools.cc: the bases and virtual tables of C++
--              classes (Cha.Collect), the methods of a table by name and index (Cha.Methods).
--              A read past the end of a vector is a result of its own, `past_end`.
--   CallGraph  CallGraph.h, the hashes of utils/Common.cc and `isEscape`. Its children are
--              Layers (`nextLayerBaseType_new` of LayerAnalysis.cc: the struct types a value was
--              loaded through), Confine (`doInitialization` of CallGraph.cc: what stores, casts and
--              initialisers record in the tables; it asks Layers for the types of a store's target),
--              FuncSets (CallGraphTools.cc), OneLayer (`getOneLayerResult`, and
--              `resolveVariableParameters` of CPPHandler.cc), TwoLayer
--              (`findCalleesWithTwoLayerTA`), Virtual (CPPHandler.cc), Verdict
--              (`TypeAnalyzeResult`) and Mlta (`findCalleesWithMLTA`, which calls the four before it).
--   Tests      Instances of the theorems at concrete inputs.
--
-- How code becomes definitions. A C++ function keeps its name in snake case. Pointers (`Value*`,
-- `AliasNode*`, `Type*`, `Function*`, `MDNode*`) are numbers and a null pointer is `none`. Shared
-- state is a record that is passed on (`AliasContext`; `Tables` and the entries of `Mlta`;
-- `Collected`), a `std::set` is a list without order, and a map is a function, or an association
-- list where the code runs over its keys. Integers: `size_t` sums of hashes wrap at 2^64, and a
-- 64-bit index keeps its low 32 bits as an `int`. What LLVM and the standard library answer (types,
-- operands, printed names, string hashes) is a parameter: `MdStore`, `Program`, `Llvm`,
-- `Signatures`, `CalledKind`, `Values`, `Operands`, `Constants`, `CastInfo`, `Names`.
-- The build's configuration is that of utils/Config.h (refinement by TBAA, virtual calls and casts
-- of function types switched on).
--
-- Fuel. A worklist gets one round for each key in the queue and for each entry that the table can
-- push (`Worklist.enough`), and Worklist.Correct shows that this suffices. The two loops of
-- TBAATools.cc get one round more than the number of the node, which suffices as descriptors form
-- no cycle (`Tbaa.Older`); `getCPPVirtualFunc` gets as many as the number of the value, as operands
-- come before their users. `mergeNode` gets one round for each allocated node and one more: each
-- recursive call has two points-to edges fewer, and there are at most twice as many as nodes. The
-- searches of LayerAnalysis.cc get one round more than there are values, since each goes on from a
-- value that it has just put into its visited set.
--
-- Not modelled: the passes that write the other tables (EscapeHandler.cc, OneLayerHandler.cc,
-- FuncAnalysis.cc, TypeBuilder) and the loop over the calls of a module (`doModulePass` of
-- CallGraph.cc), since the tables are inputs of the decisions modelled here; the inter-procedural
-- alias searches (FuncAliasAnalysis.cc, ICallAliasAnalysis.cc); UnrollLoop.cc; and the driver, the
-- output and the database (Analyzer.cc, utils/Tools.cc, utils/DBTools.cc).
pub mod Alias
pub mod CallGraph
pub mod Cha
pub mod Common
pub mod Tbaa
pub mod Tests
pub mod Worklist
