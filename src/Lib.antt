-- ===== src/Lib.antt =====
-- hdns, the web client. The client is an Angular program that talks to the hdns service by calls
-- and streams; the service itself is written in Go and is not modelled: here its answers are
-- arbitrary.
--
-- The parts and their files.
--
-- Model, frontend/src/app/global/model/api.ts. The messages (Messages), the enumerations with their
-- JSON codecs (Enums), the table of the methods (Methods). Samples has data for the tests.
--
-- Codec, the same file: the codecs of the 24 messages. Messages and Base have the messages with all
-- their fields and `createBase…`; Addresses, Zones, Certificates, Issuance, Records, Tasks and
-- Settings have `encode` and `decode` of each message, as the list of the fields that are written
-- and the list of the clauses of the `switch`. Clauses has what these are made of: the fields and
-- clauses by type, the loop, `longToNumber`; its children prove what holds of each field and of the
-- loop. Wire is what api.ts uses of `BinaryWriter` and `BinaryReader`: a parameter, with the laws
-- that what is written is read back (WireLaws) and that reading goes forward (WireMoves). Kinds has
-- all messages under one roof, as `MessageFns<T>` has them. Json has the values of type `any`, and
-- in Write and Read what `toJSON` and `fromJSON` do with a field; each of the modules above has a
-- child Json with the two functions of its messages. An `any` number is an integer or, for a
-- threshold, a decimal text; what JavaScript converts to a number, a text or a truth value is a
-- parameter (Host), and `fromJSON` gives nothing where it throws, and where a field would become a
-- number that is no integer. Kinds/Respelled has the two spellings of the names of fields.
--
-- Notify, frontend/src/app/global/services/notify/notify.service.ts and notify.model.ts, and
-- frontend/src/app/global/interceptors/loading.interceptor.ts. `addNotification` is
-- `add_notification`, `dismissNotification` is `dismiss_notification`, `loading` and `dismiss`
-- count the requests in flight. Extract has `extractErrorMessage` with its regular expression as a
-- matcher that tries the alternatives in the same order. Show has `message` and `error`. Loading
-- and Timers have the runs: requests that begin and end, and timers that fire, in any order.
--
-- Api, frontend/src/app/global/services/api/api.service.ts. A call is a constructor of `Call`;
-- `key`, `body` and `path` are what the method of that name passes on, `caught` is `catchError` of
-- `post`, and `retry_delay` is the delay of the streams. Stream has the variables and the subjects of
-- one stream and what its callbacks do, and Stream/Runs its runs, where `retry`, `repeat`,
-- `takeUntil` and `shareReplay` are by what the documentation of rxjs says: Held and Sockets have what holds in
-- all runs, Reconnects that a stream goes on, and Sends where its messages go.
--
-- RecordsTable, frontend/src/app/pages/home/sections/records-table/records-table.component.ts.
-- State has the record of the signals. Each `subscribe` or `setTimeout` leaves a `Pending`, and an
-- `Event` runs one with its answer: `on_records` is the body of `next` and `error` in `load`, and
-- so on. A `Run` lets the user act and the answers come in any order.
--
-- TaskForm, frontend/src/app/pages/home/drawers/task-form/task-form-drawer.component.ts. Triggers,
-- Headers (the rows, their validation and serialisation) and Form (opening, the payload, saving).
--
-- RecordForm, frontend/src/app/pages/home/drawers/record-form/record-form-drawer.component.ts:
-- opening, typing the token, the zones, the payload and saving (Form), the runs of these (Runs),
-- and `scheduleStepAdvance` with its timers (Steps), which sees of the form whether the groups are
-- invalid.
--
-- Overview, frontend/src/app/pages/overview/record-overview.component.ts. Page has the state and
-- the handlers, Runs the actions, answers and reports of streams, Resolve the table of resolutions.
-- A stream is a number, and the state knows which were opened and not closed.
--
-- Config, frontend/src/app/pages/home/drawers/config/config-drawer.component.ts: the lists, loading
-- and saving.
--
-- Log, frontend/src/app/pages/home/drawers/log/log-drawer.component.ts: `parseLogLine`, the lines
-- that are shown, and opening and closing with the stream (Stream).
--
-- AddressCard, frontend/src/app/pages/home/sections/address-card/address-card.component.ts: the
-- subscriptions of the card, `refresh` and its end, and their runs (Runs); History has
-- frontend/src/app/pages/home/drawers/address-history/address-history-drawer.component.ts.
--
-- Drawer, frontend/src/app/components/drawer/drawer.component.ts: the width, opening, closing and
-- the timers of closing; the library disposes of the overlays when the user goes back or forward in
-- the history. Service has the DrawerService of
-- frontend/src/app/global/services/drawer/drawer.service.ts, that knows all drawers.
--
-- Prelude: the shared helpers: Boolean tests, lists over the native numbers, `trim`, the sets
-- and maps by numbers, and objects of texts in the order of JavaScript.
--
-- The table and the page make the calls that Api describes, and what fails reaches the user through
-- Notify; the forms are opened by the page with the record that it shows.
--
-- Identifiers, times, widths and counts are natural numbers. Loops are structural recursion, and
-- need no fuel, but for the loop of `decode`: its fuel is one more than the bytes that are left,
-- and each round takes one. The numbers of attempts, of notifications and of lines are the source's
-- constants. The functions of libraries are parameters: `required` (a validator), `lower` and
-- `upper`, `stringify` (`JSON.stringify`), `parse` (`JSON.parse`), `sort_keys` (by
-- `localeCompare`), `local_time` (of a date), `move` (`moveItemInArray`), and `select` and
-- `advance` (the stepper of the form).
--
-- Not modelled: `create` and `fromPartial` of the messages, templates and styles, dialogs and
-- toasts, the logging services, the looks of the drawer's overlay, and what is outside
-- frontend/src/app; a stream whose first subscriber comes after it was closed.
pub mod Prelude
pub mod Model
pub mod Codec
pub mod Notify
pub mod Api
pub mod AddressCard
pub mod RecordsTable
pub mod TaskForm
pub mod Overview
pub mod Config
pub mod RecordForm
pub mod Drawer
pub mod Log
