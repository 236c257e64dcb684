-- ===== src/Lib.antt =====
-- raku-sika-hub: the hub that weighs and prints labels at a meat processing station.
--
-- The hub (internal/app) serves tablets over HTTP and WebSocket (internal/httpapi, internal/ws), holds a
-- scale on a serial port (internal/scale) and a barcode scanner (internal/scanner), and prints labels
-- (internal/printer): a label is drawn, encoded as Brother QL raster (internal/printer/qlraster), and
-- handed to a CUPS raw queue. CUPS runs the hub's own backend (internal/printer/qlbackend), which reads
-- the raster back, talks with the printer and leaves a result that the hub tells the tablet.
--
-- Modelled here, from the bytes to the tablet:
--  Raster      internal/printer/qlraster/qlraster.go: EncodePages, writePage (write_page), isInk (is_ink).
--  Job         internal/printer/qlbackend/job.go: ParseJob (Parse.parse_job), ToTwoColor
--              (TwoColor.to_two_color). Parse/Commands describes the grammar that both are compared with.
--  Status      internal/printer/qlbackend/status.go: ParseStatus, Problems, MediaMismatch.
--  Frames      internal/printer/qlbackend/device.go: readFrames (read_frames).
--  Send        internal/printer/qlbackend/send.go: Send. World has the state that its steps share and the
--              steps that read and write, Steps the wait for the labels (follow) and the ways to end, Run
--              the status request (preflight) and Send itself (send).
--  Backend     internal/printer/qlbackend/main.go: run (run_backend, run_data), with its copies. Results:
--              internal/printer/qlbackend/results.go, WriteResult and ReadResult on a list of files.
--  Queue       internal/printer/queue_wait.go: waitForQueueJob; internal/printer/raw.go: printRaw up to its data,
--              confirmWithPrinter, rawConfirmWait; internal/printer/diagnosis.go: DiagnoseQueue; internal/printer/brother.go:
--              verifySubmittedJob, findJob, normalizePrinterQueueState, annotateJobAges.
--  Printer     internal/printer/brother.go: Names (resolvePrinter, DetectBrotherQL), Lpstat (the readings of
--              lpstat), Status (Status, validateStatus, Ready), Jobs (QueueSnapshot, RecentJobs, CancelJob,
--              RestartJob), Print (PrintLabel, and printRaw of internal/printer/raw.go; Testing for TestPrint).
--              Cups has the commands that they run, Printer the errors.
--  Label       internal/printer/build.go and types.go: NormalizeRequestData, BuildLabelDataFromMap.
--  Api         internal/httpapi and internal/ws. Http and Socket: the print request of both; Scales and
--              Socket.Scales: the handlers of the scale; Errors: classifyScaleError of both; Jobs: the queue
--              and its jobs; Middleware: CORS and LANOnly; Hub: the clients of internal/ws/server.go, their
--              channels and goroutines as a step relation.
--  Network     internal/netadmin/network.go: the lines of nmcli, and in Manager Status and Activate.
--  Config      internal/config/config.go: Load, applyEnvOverrides.
--  App         internal/app/app.go: the broadcasts of the state of the printer.
--  Scanner     internal/scanner/client.go: the events of a read, Consume; Keys for keymap.go.
--  Scale       internal/scale/protocol.go (Protocol, with Text for the strings package) and
--              internal/scale/client.go (Client; Loop for reconnectLoop).
--  Commands    the monad of the commands that are run, for Printer and Network.
--  Strings     the functions of Go's strings package that the above use, on bytes.
--  Prelude, Result   shared: tests on numbers, lists, bits, texts as bytes, Go's value-and-error results.
--  Tests       runs on small inputs.
--
-- State is passed explicitly. What comes from outside is a script in the state or an argument: the frames
-- of the printer, its timers and the cancel of the context (Send.World.Arrival), how writes end, the
-- reads of the serial port (Scale.Client.Poll), the reads of the queue with their times
-- (Queue.Wait.Attempt). A script that is used up stands for silence: timers fire, reads time out, and
-- writes go well. The order in which a select takes what is ready is the order of the script. What CUPS
-- answers to a command may depend on all commands before it (Printer.Cups.Outside.answer), and these are
-- recorded as the state of a monad; so with nmcli. The readings of the queue while a submitted job is waited
-- for are a script, and not among them. A panic of the source is a value: `panicked` of the encoder and of
-- the handlers, `no_port` of the scale's client. Bytes and times are natural numbers; a text that is
-- shown is a constructor, and texts that are joined are a list.
--
-- Fuel: ParseJob's and ToTwoColor's loops, the frame reader, the cutting into chunks and the trimming of
-- strings take as much fuel as there are bytes, and each turn takes a byte at least. waitForQueueJob has
-- its timeout in milliseconds as fuel, and each turn sleeps a millisecond at least. The other loops are
-- structural, on the script or on the attempts that are left. Splitting into fields, normalizing of names
-- and the events of a read take as much fuel as there are bytes.
--
-- Parameters: strconv.ParseFloat, with its type of values; the classes and the lower case of runes outside
-- ASCII; url.Parse, net.ParseIP and encoding/json; the dial of a network printer; qlbackend.ResolveDevice;
-- the answers of CUPS and of nmcli; the drawing of a label (Printer.Print.Station.renderer). Images are
-- what image/png decodes.
--
-- Not modelled: the drawing of labels; /health, the preview and the scan over HTTP, and the print_test message
-- of WebSocket; logging, start-up and the wiring of the components; opening of devices and signals in the
-- backend; the opening of the scanner and of the scale's port; the trace link on a label; the scoring of media
-- options, which nothing calls; concurrent calls of the scale's client beyond the order in which they take its
-- lock.
pub mod Api
pub mod App
pub mod Backend
pub mod Commands
pub mod Config
pub mod Frames
pub mod Job
pub mod Label
pub mod Network
pub mod Prelude
pub mod Printer
pub mod Queue
pub mod Raster
pub mod Result
pub mod Scale
pub mod Scanner
pub mod Send
pub mod Status
pub mod Strings
pub mod Tests
