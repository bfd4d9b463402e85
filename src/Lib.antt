-- ===== src/Lib.antt =====
-- BeastDB Studio: the logic of the web interface of BeastDB, as functions and state machines.
--
-- The program and its parts. BeastDB stores values under 64-bit keys whose bits are a partition
-- (8), a domain hash (28) and an item hash (28). The Studio (studio/src) packs and decodes such
-- keys, parses each stored value into a record for display, infers a name for each partition from
-- its records, and lists the partitions. The engine also serves a small dashboard
-- (internal/web/static/js/dashboard.js) that reads, writes and deletes single keys.
--
-- Which file models which part:
--   Js, Js/*: what the code uses of JavaScript. A text is the list of its UTF-16 code units
--     (Text); toLowerCase (Case), & and | (Bits), toString(radix) (Radix), BigInt, parsed JSON
--     (Json), encodeURIComponent (Uri), regular expressions by derivatives (Regex), and the
--     parameters JSON.parse, JSON.stringify and Number (Platform).
--   Types: studio/src/types.ts, and PartitionMeta.
--   Keys/Format: studio/src/utils/format.ts (fnv1a64, fnv28, buildStructuredKey, formatKey).
--   Keys/Registry, Keys/Decoder: studio/src/utils/key-decoder.ts; the two registries, which are
--     variables there, are an explicit state (Registries).
--   Schema/Names, Schema/Fields, Schema/Infer: studio/src/utils/schema-inference.ts.
--   Payload/Values, Payload/Attributes, Payload/Parse: studio/src/utils/data-parser.ts.
--   Partitions: buildPartitionList of key-decoder.ts.
--   Dashboard: the page of dashboard.js and what each handler does with an outcome;
--     Dashboard/Events: the handlers up to their await, and sessions as sequences of events.
--   Display: studio/src/utils/display.ts.
--   Hooks/Api: studio/src/lib/api-client.ts.
--   Hooks/Data: studio/src/hooks/useStudioData.ts, its state and its functions up to their await;
--     Hooks/Data/Events: what they do with the answers, and sessions as sequences of events.
--     Hooks/Reads: its lookup, scanRange and search.
--     Hooks/Data/Events/Reading: the hook and the server of Server, one call after the other.
--   Server: GetRecords of internal/web/handler/api.go and ScanRecordsBounded of
--     internal/api/engine_scan.go, over the entries of the index in the order of their keys.
--   Hooks/PartitionNames: studio/src/hooks/usePartitionMetadata.ts.
--   Hooks/UserContext: studio/src/hooks/useUserContext.ts.
--   Hooks/Ranges: the ranges of keys that the hooks ask for.
--   NewRecord: studio/src/components/NewRecordDialog.tsx as a state machine;
--     NewRecord/View: what it renders; NewRecord/Fields, NewRecord/Properties:
--     buildFields of studio/src/components/RecordFields.tsx, and its form.
--   Explorer, Explorer/Events: studio/src/components/RecordsView.tsx, its searches and scans.
--   StudioPage: studio/src/app/page.tsx, its views, dialogs, notices, deletions and selection.
--   Paging: studio/src/components/PaginationBar.tsx, and the pages of RecordTableView.tsx.
--   ApiTokens: studio/src/components/ApiTokensDialog.tsx, its state and its handlers up to their
--     await; ApiTokens/Events: what they do with the answers; ApiTokens/View: what it renders.
--   Views: the other components of studio/src/components, as functions to trees of elements
--     (Views/Html) in which an element has the calls that its handlers make.
--     Views/Formats: formatBytes and formatDateRelative of format.ts.
--     Views/Values, Views/Details, Views/Engine: RecordValue.tsx and RecordFieldList.tsx;
--       RecordDetails.tsx and RecordSheet.tsx; KeyBitSlicer.tsx and RecordEngineDetails.tsx.
--     Views/Profile: UserProfilePanel.tsx, UserCollectionSection.tsx and RoleBadge.tsx.
--     Views/Rail: PartitionRail.tsx, DocumentList.tsx and Breadcrumb.tsx.
--     Views/Pages, Views/Cells, Views/Tables: PaginationBar.tsx, RecordTableView.tsx and
--       RecordGridView.tsx.
--     Views/Toolbar: StatusFilterBar.tsx and RecordsToolbar.tsx. Views/SearchBar, Views/Banner:
--       GlobalSearchBar.tsx and SearchCoverageBanner.tsx. Views/Content: ExplorerContent.tsx.
--     Views/Page: what RecordsView.tsx renders; Views/Page/Searches: a session of the explorer in
--       which the user does what the search bar and the banner offer.
--     Views/Operations, Views/Overview, Views/Header, Views/Analyzer, Views/EditRecord:
--       OperationsView.tsx; OverviewView.tsx; StudioHeader.tsx and DeleteUserDialog.tsx;
--       KeyAnalyzerDialog.tsx; EditRecordPanel.tsx.
--   Prelude, Prelude/*: lists, options, orders, and the stable sort with its laws.
--   Tests: the models at concrete inputs.
-- The children of a module are its laws.
--
-- How the parts interact. parseUniversalRecord decodes its key (Keys) and reads the payload;
-- buildPartitionList reads the registries and infers names (Schema) from records (Payload). A
-- handler of the dashboard ends at its await with a request in flight (Pending); the outcome of a
-- request arrives later, after any number of other events, and in any order. In the same way the
-- functions of useStudioData leave a call under way (Call), whose answer goes through api and then
-- sets the state of the hook; the records of an answer are parsed with the registries of that time.
--
-- Bounds. A partition is read in pages of 100: the clicks that the reading needs are counted in its
-- theorem. toString(radix) takes at most n rounds for n, which are enough since each divides by the
-- radix (Js/Radix). displayName goes two levels deep, as the code does. All other loops are
-- recursion on a list. The 64 bits of the hashes are written out as masks.
--
-- What is not modelled, and why. JSON.parse, JSON.stringify and Number are parameters (Platform):
-- they turn on binary floating point; so are the logarithm, the quotient, the dates and the
-- locale of format.ts (Formats). A number in a parsed value stands as its decimal text. The case
-- of units from 128 on is a parameter (CaseMap), one unit at a time. Prefixes are natural
-- numbers. An object with a property called toString has no text, and String throws: this is
-- modelled where parseUniversalRecord catches it, and left out where a status is rendered. The
-- DOM is the record of the elements that dashboard.js touches, and the clipboard never refuses.
-- What the server answers is typed as the code says, since the code does not check it. The
-- function of a hook that an event calls is that of the state at that event. Of markup, classes
-- and icons are left out, and so are the keys of lists and the `open` of dialogs, which belongs
-- to what shows them; a handler in the tree is the list of the calls that it makes, and a
-- disabled element makes none. Left out are the components ui/*, BeastDBLogo, PartitionChart and
-- RecordsResults, the hook useTheme, and the rest of the engine and of the web server in Go.
mod Prelude
pub mod Js
pub mod Keys
pub mod Types
pub mod Dashboard
pub mod Schema
pub mod Payload
pub mod Partitions
pub mod Display
pub mod Hooks
pub mod NewRecord
pub mod Paging
pub mod Explorer
pub mod StudioPage
pub mod Views
pub mod ApiTokens
pub mod Server
pub mod Tests
