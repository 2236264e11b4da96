-- ===== src/Lib.antt =====
-- gotmucks is a Go library that drives tmux: one-shot commands run a tmux process each, and a control
-- connection (`tmux -C`) sends commands down a pipe and reads replies and notifications from another.
--
-- Parts, and the files that model them (paths from the repository's root):
--   Escape     internal/escape/escape.go: the octal escaping of pane output
--   Vis        vis.go: the vis(3) escaping of names and option values
--   Ids        ids.go: identifiers of sessions, windows and panes, and targets
--   Ctlparse   internal/ctlparse/ctlparse.go: `Classify` and the decoders of arguments (Ctlparse/Args)
--   Control    control.go, control_reader.go, control_events.go: the control connection
--     Blocks     closesBlock, beginBlock, failHead, endBlock, dataLine
--     Taps       deliverOutput, Output, Untap, DroppedOutput; Taps/Refine has the machine of one pane
--     Notify     handleNotification
--     Reader     handleLine and the loop of readLoop
--     Queue      the queueing of Do, behind the startup barrier (submit); unqueue, terminalErr, and the
--                result of Do
--     Teardown   finishReader
--     Channel    emit, emitReserved, flushDrops
--     System     the interleavings of all of these as a step relation
--     Process    the checks of Connect, awaitStartup, reap and Close; syncBuffer (Process/Stderr)
--   Command    control.go, control_cmds.go: the checks of Do; quoteArg and DoArgs (Command/Quote);
--              Subscribe, PauseAfter, Pause and Resume (Command/Refresh), SetSize (Command/Refresh/Size)
--   Keys       keys.go: batchKeys, SendKeys, SendText and SendLine
--   Format     format.go: FormatSpec.Arg, ParseRows and Row; the fields of a row (Format/Access);
--              Query and QueryArgs (Format/Query)
--   Client     client.go: splitLines, undoDollarEscape, escapeTrailingSemicolon; run, runOK, runLines,
--              tmuxVersion, decodeStored, ServerRunning and KillServer (Client/Run)
--   Errors     errors.go: isNoServerStderr, missingTargetErr and their patterns
--   Config     options.go: the options, argv, globalArgs, environ; controlCommand of control.go
--   TmuxOptions  tmuxopts.go: setting, unsetting and reading options
--   Hooks      hooks.go: setting, unsetting and reading hooks
--   Sessions   session.go; what HasSession and KillSession rest on (Sessions/Absence)
--   Windows    window.go; Panes pane.go
--   Version    version.go: ParseVersion and Compare
-- `Dict` has maps from strings to strings; `Base` has the shared types and lemmas; `Strings` has what
-- the source uses of Go's `strings` and `strconv`, written from their documentation; `Tests` has runs
-- on concrete inputs.
--
-- A Go string or byte slice is a list of numbers, one for each byte; the lemmas that need them below
-- 256 say so. An int is a signed integer; it wraps around at 64 bits where the source can overflow. A
-- loop over an index is structural recursion on the part of the text that is left, so no function
-- here runs on fuel. The state of a connection is a record (`Conn`), every operation under its lock is
-- a function of it, and a step of `System` is one of these operations. A pointer to a queued command
-- is a ticket, given out in the order of queueing; waking a command appends it to `settled`. A field
-- that a reader's call of `emit` changes is not part of `Conn`: `out` lists the calls, and `Channel`
-- says what becomes of a list of calls.
--
-- Running a tmux process is a parameter (`Client.Run.Outside`): it takes what there is outside and the
-- arguments and environment of a process to what there is afterwards, its output and how it ended.
-- An operation of a client takes the client's state, which is what there is outside and the version
-- once it is known, and returns it with a value or an error. What tmux prints is described from the
-- source's comments, by relations (`Vis.Escapes.Escapes`, `TmuxOptions.Listing.Shown`,
-- `Hooks.Reading.HookLines`); they are hypotheses of the theorems on reading it back.
--
-- Not modelled: starting, writing to and reaping the control connection's process, timers and contexts
-- (a timer's effect is a step that may happen at any time), the text of error messages (an error is
-- the data that its message is made of), and the names of scopes and keys for diagnostics.
mod Base
mod Strings
pub mod Escape
pub mod Vis
pub mod Ids
pub mod Ctlparse
pub mod Control
pub mod Command
pub mod Keys
pub mod Format
pub mod Client
pub mod Errors
pub mod Config
mod Dict
pub mod TmuxOptions
pub mod Hooks
pub mod Sessions
pub mod Windows
pub mod Panes
pub mod Version
mod Tests
