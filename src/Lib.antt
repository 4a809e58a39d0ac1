-- ===== src/Lib.antt =====
-- The core of wrap: the records of its workers, and the encrypted mirror of a tmux window to a browser.
--
-- A worker resolves the tmux window it shares, writes a record of itself into a directory shared with
-- the other workers, and runs a mirror manager. The manager starts a server behind a tunnel, hands
-- out a secret, and opens a terminal for each client that connects; a client and its browser talk
-- in frames that are encrypted in each direction under keys derived from the secret.
--
-- Files, and the code they are about:
--   Base                 what strconv, strings, path/filepath and unicode/utf8 do to bytes. A Go string is
--                        a list of bytes (Base.Text), an int a Base.Int.ℤ over the native numbers.
--                        encoding/json is a parameter: an encoder and a decoder (Base.Json).
--   Target               internal/target/target.go: Key, parseTMUX, parseTarget,
--                        parseLengthPrefixedFields. What tmux prints is an argument; the SHA-256 digest of a key is a
--                        parameter.
--   Instance.Record      internal/instance/model.go: Record, Validate
--   Instance.Name        internal/instance/name.go: ValidateName, ChooseName, derivedName
--   Instance.Store       internal/instance/store.go: the directory is a World, a list of entries and a list that
--                        tells which system call fails next; an operation is a function on it that
--                        returns a result and the World after it. The lock makes operations of workers follow one
--                        another, so one operation runs alone.
--   Mirror.Protocol      internal/mirror/protocol.go: tags, limits, frames, ChunkOutput
--   Mirror.Cipher        internal/mirror/cipher.go: DeriveKeys, Sealer, Opener. AES-GCM and HKDF are parameters with
--                        their laws as hypotheses (IsGcm, IsHkdf).
--   Mirror.Manager       internal/mirror/manager.go: one function for each stretch under the mutex, and the
--                        steps that goroutines may take (Mirror.Manager.Steps). A server, a tunnel, a viewer and
--                        a client are numbers, which stand for the pointers that the code compares.
--                        What is read outside the mutex (a context, an error, a random secret) is an
--                        argument of a step. Of the server it is kept which secret it was given last.
--   Mirror.Client        internal/mirror/client.go: the outbound queue, send, SendOutput,
--                        authenticateClient, dispatch. The writer may take out frames between the chunks of
--                        SendOutput; no other goroutine sends in between.
--   Mirror.Pairing       internal/mirror/pairing.go: NewSecret, ParseSecret, PairingURL. net/url is a parameter
--                        (Mirror.Url), and so is base64.
--   Mirror.Tunnel        internal/mirror/tunnel.go: parseCloudflaredVersion, extractQuickTunnelURL,
--                        validateTunnelOrigin, diagnosticTail, and the loop of StartTunnel over the events that wake it
--   Mirror.Viewer        internal/mirror/viewer.go: the parsers (Geometry), verifyViewerGeometry over what each
--                        query of tmux answers (Verify), pinWindow, releaseWindow and Cleanup (Pins). The factory is
--                        its map of pins and the leases it has handed out.
--   Mirror.Server        internal/mirror/server.go: handleWebSocket, one function for each stretch that works on the
--                        shared server, SetSecret and SetPublicHost. A client is the number of its handler; how the
--                        upgrade, the handshake and the service of a client end is an argument. The handlers of a
--                        server, and the steps they take in any order, are Mirror.Server.Admission. The channel of
--                        remote diagnostics with the goroutine that empties it is Mirror.Server.Diagnostics; the
--                        clock is an argument.
--   Control              internal/control/protocol.go and internal/control/server.go: validate, readRequest, handle. The
--                        worker behind the handler is a parameter, a state with its operations. A connection is the
--                        bytes it yields.
--   Tmux                 internal/tmux/tmux.go. tmux is a parameter: a state, and what a command line does to it. The
--                        conditions that guard a command (Tmux.Format), the quoting of its words (Tmux.Quote), the
--                        operations of Server (Tmux.Server, Guard, Sessions, Creation, Queries), the argument lists for
--                        a fresh client (Windows, Pin) and the parsers of lists (Listing). An operation is a function on
--                        the state of tmux. What tmux does with a condition and with a command is described apart from
--                        the code (Format.Reading, Quote.Words) and assumed of tmux in Guard.Honoured; both leave out what they do
--                        not describe, such as a newline in quotes, an escape for a control character, or a command
--                        that begins with an assignment.
--   Share                internal/share/service.go: serviceHandler over the store and a mirror that is a parameter
--                        (Handler), and the course of Run with its deferred calls (Worker), where what each call
--                        answers is an input.
--
-- Fuel: ChunkOutput and the decoding of UTF-8 run on the length of their input, of which each turn takes at
-- least one byte; Itoa on its number and one more, since a division by ten makes a positive number
-- smaller; the search of a free name on the number of used names and one more. The polling of a viewer's geometry runs on 400: 200 queries
-- to find the client and 200 after the one correction.
--
-- Not modelled: the assets and headers of the mirror server, the tunnel and viewer processes, the check of
-- tmux's version, the listener of the control socket, diagnostics files, the process of a share
-- (internal/share/process.go), the target helper, the doctor, the command line and the browser code,
-- which are for the most part calls of the operating system; leases and the pruning of artifacts in the
-- store; file modes.
pub mod Base
pub mod Control
pub mod Target
pub mod Instance
pub mod Mirror
pub mod Tmux
pub mod Share
