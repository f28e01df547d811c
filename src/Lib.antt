-- ===== src/Lib.antt =====
-- A verification library of the retrieval engine under src/rag_engine, a question-answering
-- service over documents with access classes. The governance decides, for one chunk and one
-- session, whether the content is shown, masked, scoped or denied; everything else goes through
-- that decision: the filter behind every retrieval, the allowlists in front of it, the cache of
-- answers, the corrective loop, and the propagation of changes.
--
--   Schemas      src/rag_engine/schemas.py: records and validators
--   Governance   src/rag_engine/governance: access.evaluate (Access), SecurityFilter.apply
--                (Filter), redact_chunk (Masking), authorized_chunk_ids (Allowlist), the local
--                relationship engine (Rebac)
--   Multimodal   src/rag_engine/multimodal/payload.py: payloads in the metadata of a chunk
--   Catalog      seeds/access_matrix.py and seeds/personas.py (Matrix), and the grid of
--                src/rag_engine/catalog/oracle.py (Oracle)
--   Cdc          src/rag_engine/cdc: events and CdcProcessor.apply, over a store and a cache,
--                and ReEmbedder.reembed_all (ReEmbed)
--   Cache        src/rag_engine/cache: AuthScope (Key) and SemanticCache (Semantic)
--   Selfrag      src/rag_engine/selfrag/loop.py: CorrectiveLoop.run
--   Pipeline     src/rag_engine/pipeline.py: RAGPipeline.query with its cache, filter and loop, and
--                apply_change (Changes)
--   Retrieval    src/rag_engine/retrieval: IdMap, and the search and the retriever of TurboVec,
--                the modes, their router (ModeRouter), reciprocal rank fusion
--                (Fusion) and HybridRetriever (Hybrid)
--   Deploy       src/rag_engine/deploy/guards.py: RateLimiter and assert_synthetic_only
--   Funnel       src/rag_engine/funnel/trace.py: the stages of a query
--   Store        src/rag_engine/store/chunk_source.py: chunks from stored rows (ChunkSource)
--   TextToSql    src/rag_engine/texttosql/result_masking.py: mask_rows (ResultMasking), and TextToSqlAgent
--                with query_warehouse of src/rag_engine/pipeline.py (Agent)
--                src/rag_engine/sql: assert_read_only and the cost guard (Gate)
--                src/rag_engine/connectors/bigquery.py: GuardedBigQuery (Warehouse)
--   Trace        src/rag_engine/trace.py: build_trace (Build), its stages, gates and terms, and
--                the spans of src/rag_engine/observability/tracer.py
--   Evaluation   src/rag_engine/evaluation: the metrics and the quality gate
--   Prelude      the tests, lists, dictionaries, texts and numerals that they share
--
-- State is passed explicitly: an operation takes the state and returns the next one, Option or a
-- sum stands for an exception, and a sequence of events is a list. Numbers are natural numbers:
-- clearances lie in 0..5, and counters and versions are not negative. Floating-point values are
-- bit patterns or an abstract type whose operations are parameters, times are readings that the
-- operations are given. Embedders, graders, retrievers, stores, hashlib and numpy are parameters.
-- The loop of CdcProcessor.apply runs on fuel, max_retries + 1 rounds, which is shown to be enough;
-- that of ReEmbedder.reembed_all runs on fuel, which is enough if it exceeds the number of rows;
-- every other loop is structural recursion. Upper-casing and white space are those of ASCII.
--
-- Not modelled: clients of external services, the HTTP routes, settings, the recording of spans, log
-- lines, and the rest of the pipeline: its assembly and its indexing, routing, ingestion,
-- enrichment and generation.
pub mod Prelude
pub mod Pipeline
pub mod Trace
pub mod Schemas
pub mod Governance
pub mod Catalog
pub mod Multimodal
pub mod Cdc
pub mod Cache
pub mod Selfrag
pub mod Retrieval
pub mod Deploy
pub mod Evaluation
pub mod Funnel
pub mod Store
pub mod TextToSql
