-- ===== src/Context.antt =====
-- ExecutionContext of controller/app: the peers of a context, the indices that it hands out, the
-- state of its threads, and the manifest that its constructors build from the parsed
-- action-manifest.json.
mod Examples
pub mod Construct
pub mod Peers
