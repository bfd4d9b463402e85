-- ===== src/Tests.antt =====
-- The models at concrete inputs: an engine, some records, and a run of each theorem.
mod Samples
mod KeyRuns
mod RecordRuns
mod PageRuns
mod HookRuns
mod DialogRuns
mod PagingRuns
mod ExplorerRuns
mod NameRuns
mod StudioRuns
mod ViewRuns
mod TokenRuns
mod ReadingRuns
