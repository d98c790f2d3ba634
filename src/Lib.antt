-- ===== src/Lib.antt =====
-- Verification library for the Rust crates of Aerogram, an email client: html-sanitize-core, the
-- sanitizer for the HTML of messages, and proton-core, the backend for Proton Mail. The application
-- calls both through a C ABI; proton-core also calls the sanitizer for message bodies.
--
-- Prelude: numbers with Boolean tests, lists, results, texts as lists of code points, bit operations
-- at variables, and UTF-8 as Rust's standard library encodes and reads it.
--
-- Json: `serde_json::Value` with the accessors in use. Json/Shapes: what a value may look like, as a
-- caller describes it.
--
-- html-sanitize-core/src/lib.rs:
--   Html/Link: `clean_link`. Link/Parts cuts a link into base and parameters independently of the
--     code; Link/Stripping says what is stripped.
--   Html/ZeroWidth: the handler that `doc_text!` is given.
--   Html/Stream: `SanitizerStream` (`new`, `write`, `finish`), `sanitize_for_display` and
--     `to_plain_text`. The buffer shared with the rewriter's sink is a field, to which a call of the
--     rewriter appends. Stream/Delivery follows the bytes over any calls; Stream/Chunking compares
--     the stream with the one-shot call.
--   Html/Elements: the handlers that `build_rewriter` and `to_reader_html` give to `element!`, over
--     lol_html's element API. Elements/Attributes has what is left of the attributes,
--     Elements/Links what a link becomes.
--   Html/Rewriting: these handlers with their selectors. Rewriting/Effects has lol_html's documented
--     effects; Rewriting/Display takes the display handlers in any order, Rewriting/Reader the
--     Reader's in the order of registration, and Rewriting/Links a link of the Reader's.
--   Html/Abi: the C ABI, with streams behind raw pointers. Abi/Handles has a client that holds
--     several of them, Handles/Steps a call of it, and Handles/Alone any sequence.
-- proton-core/src/lib.rs:
--   Proton/Core: `CoreState`, `ProtonCore`, and Proton's crates as the record `ProtonApi`;
--     Core/Outcomes takes a chain of its steps apart, Core/Yields has rules for what it answers.
--   Proton/Auth: `login`, `submit_totp`, `submit_mailbox_password`, `finish_login`,
--     `restore_session`, `account_info`. Auth/SignIn has each call, Auth/Account any history.
--   Proton/Events: `wait_event`; Events/Polling has its end and its answers.
--   Proton/Labels: `list_labels` and `list_messages`; Labels/Listing has their rows and
--     errors, Labels/Asked the labels that are asked for.
--   Proton/Bodies: `message_body`, which calls the sanitizer, and `get_attachment`. Bodies/Shown has
--     what is shown, Bodies/Timings the times sent along, Bodies/Attached the attachment.
--   Proton/Base64: `base64_encode`; Base64/Decoding reads it back.
--   Proton/KeyChain: `FileKeyChain` on a file system that may refuse to write, to read or to remove a
--     path, or to change its mode; KeyChain/Entries has what is loaded after a call.
--   Proton/Dispatch: `dispatch`; Dispatch/Frame has what each method may change, Dispatch/Reached any
--     history of calls. Dispatch/Answers has the shape of what each method answers: Answers/SignIn,
--     Answers/Listed and Answers/Bodily by their parts, and Answers/Typed for `dispatch`.
--   Proton/Abi: `proton_call`, `proton_core_new`, `proton_core_free` and `create_context`, with cores
--     behind raw pointers; Abi/Calls has what a caller gets, Abi/Replies in which shape. Abi/Memory
--     has a client that owns cores and the strings of replies, which `proton_free_string` drops;
--     Memory/Safe has one request of it, Memory/Clients any history.
--   Proton/Threads: several threads on one core, as steps under its lock. A thread that sets up an
--     account runs `promote`, with anything done to the world between its calls; Threads/Account has
--     what no interleaving breaks. Threads/Calls takes a call that runs alone apart into such steps
--     (Calls/SignIn the logins, Calls/Waiting `wait_event`), and Threads/Alone any call.
--   Proton/Runtime: `runtime`, over what Tokio's builder makes.
--   Proton/Mock: a small world in which the tests run.
-- proton-core/src/bin:
--   Probes: the search of lean_attach.rs and the counts of probe.rs over what the core answers;
--     Probes/Answers has how they end.
--   Probes/Attach: lean_attach.rs, with what it prints as values; Attach/Counted has what
--     it says of an attachment.
--   Probes/Checks: cache_check.rs, sanitize_check.rs, inspect_html.rs and header_check.rs up to the
--     body that they report on, with the lines of Probes/Lines; Checks/Panics has how far they get.
--   Probes/Headers: what header_check.rs prints of headers; Headers/Hidden says what it keeps back.
--   Probes/Probing: probe.rs with what it prints; Probing/Unlabelled has how far it gets.
--   Probes/Listings: list_probe.rs and names_probe.rs, with what they print as values;
--     Listings/Printed says what that is.
--   Probes/Watches: marker_watch.rs, wait_event_probe.rs and labels_probe.rs; Watches/Ending has the
--     end of the first two.
--   Probes/Spike: the keychain of lean_spike.rs and its main function from the context on; Spike/Keys
--     compares the keychain with the crate's, Spike/Opened says what is printed;
--     Spike/Context has the context that it makes.
--   Probes/Shell: labels_probe.rs, marker_watch.rs, wait_event_probe.rs, list_probe.rs and
--     names_probe.rs over the C ABI, from the command line to the end of the core. Shell/Strings
--     follows the string of a reply, Shell/Goes the calls of a program and Shell/Cleared the whole of
--     `main`, Shell/Coreless without a core; Shell/Chained and Shell/Programs go from the programs
--     over JSON values to those over texts.
--
-- Parameters: lol_html's rewriter and elements, html2text, Proton's crates, serde's texts and
-- messages, the system's calls for directories, and the clocks. A theorem that relies on a law of
-- one of them takes it as a hypothesis (`IsStreaming`, `RemovesByName`, `SetsByName`, `HasEffects`,
-- `Renames`, `HasClock`, `IsMonotone`, `GivesBytes`, `Keeps`, `IsReadable`, `ReadsParams`). Errors
-- are the texts that the code builds.
--
-- Fuel: the loop of `wait_event` takes one unit for each look at the feed. It sleeps 250 ms between
-- two looks, so that a unit for every 250 ms of the timeout and one more are enough.
--
-- Not modelled: lol_html's parser, which finds the elements and their tags; Tokio, on whose runtime
-- the calls run; the vendored muon crates; and the application, which is C++. lean_attach.rs, probe.rs,
-- cache_check.rs, sanitize_check.rs, inspect_html.rs and header_check.rs are taken from the session on,
-- over the JSON values that their texts stand for: they make and free their core as the programs of
-- Probes/Shell do. The file that inspect_html.rs writes is taken to be writable. Outside of
-- Proton/Threads the calls of one core are taken one after another: `proton_call` blocks until its call
-- is done.
pub mod Prelude
pub mod Json
pub mod Html
pub mod Proton
pub mod Probes
