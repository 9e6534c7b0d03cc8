-- ===== src/Lib.antt =====
-- adb-broker: read-only, audited access to a phone's media over the adb sync protocol.
--
-- A path that a caller names is checked by business/types/devicepath before the device hears of it;
-- what is then asked of the device goes through foundation/adbwire, which connects to the adb server and
-- speaks the sync protocol on a socket, for the store and its walk (business/domain/device); what was done is recorded by
-- foundation/audit. The development models all of these.
--
-- business/types/devicepath/path.go is DevicePath. `ParseAuthorizedPath` is `parse_authorized_path`,
-- `Child` is `child`, `Narrow` is `narrow`, `checkForm` is `check_form`, `within` and `withinAny` keep
-- their names. A path is a list of bytes. The package's list in force is an argument, and `narrow` gives
-- the list that it leaves. What an error says is a value of `Denial`. Below DevicePath stand the
-- segments of a path (Segments), its form (Form), the parser (Parse), the child (Descent), and narrowing
-- (Sorting, NarrowLoop, Narrowing).
--
-- foundation/adbwire/sync.go is Wire.Stat (`decodeStat`), Wire.Session (the session, `statCommand`),
-- Wire.Listing (`List`) and Wire.Transfer (`Recv`); foundation/adbwire/framing.go's `readFull`, `writeAll`
-- and `wireErr` are Wire.Socket. A command is a function of the session to the session that it leaves
-- and a result. The callback of `List` and the writer of `Recv` are parameters: functions of a state of
-- theirs. The loops of `List` and `Recv` run on fuel, one more than the bytes that are to come: each
-- round reads a header of eight bytes or fails, so that the fuel is never used up.
--
-- foundation/adbwire/adbwire.go is Wire.Conn (`Conn` with `prepare`, `query`, `switchServiceLocked`,
-- `TransportAny`, `TransportSerial`, `Sync`, `Close`) and Wire.Services (`ServerVersion`, `Devices`,
-- `DeviceFeatures`); the frames of framing.go are Wire.Frames. What the dials give is a list in the state
-- of the connection, and so are the sockets that it has closed, for the theorems to speak of what was
-- written on them; errors.go's mapping of FAIL messages is Wire.Failures, where strings.ToLower is a
-- parameter. `ConnState` has the source's five states, and Wire.Conn.Sound runs any sequence of calls.
--
-- business/types/errcode, filekind, serial and mtime are Errcode, Filekind, Serial and Mtime; volume.go of
-- devicepath is DevicePath.Volume, whose stat is a parameter. foundation/audit/anchor.go is Audit.Anchor, with the
-- journal's socket as a parameter; record.go is Audit.Record, with the layout of a time and SHA-256 as
-- parameters; log.go is Audit.Lines (the lines of the log, `verifyRecord`), Audit.Log (`Append`, `VerifyChain`), Audit.Tail
-- (`TailRecord`) and Audit.Open (`Open`, `Create`). The handle holds the bytes of its file; what the file system does
-- with a write is an argument, and the decoder of JSON and of times is in the record `Platform`. TailRecord's loop runs on
-- fuel 5: its windows are 2^16 to 2^20 bytes.
--
-- business/domain/device/stores/adbsyncdb/walk.go is Device.Walker (the state) and Device.Walk (`walkRoot`, `walkDir`, `classify`, `descend`,
-- `recheckRoot`), on the sessions of Wire.Session and Wire.Listing. The caller's callback is a function of a state of its
-- own, and the cancellation of the context a function of where the walk stands. `walkDir` runs on fuel 129: the walk goes
-- 128 levels deep at most. Device.Walk.Steps is the abstract walk. Device.Codes has the codes of failures, the choice of
-- a device and the gate on its features; Device.Store is the store's session and how it is made again, with what each
-- dial gives as a list, and Device.Store.Operations its `Probe`, `ResolveVolume`, `List` and `Fetch`. Device.Port puts
-- the store under the bus.
--
-- business/domain/device/devicebus is Device.Bus (`Business` over a `Storer`, whose list and fetch take the caller's callbacks
-- as they are), and its extension deviceaudit is Device.Audited, which records in the log of Audit.Log what the bus did.
--
-- app/broker/verify.go is Verify: what `runVerify` concludes from the log and the anchors, given the entries' fields;
-- strconv.ParseUint is a parameter.
--
-- Not modelled: mutexes, the deadlines of single reads, the texts of errors, the reuse of the chunk
-- buffer, and the refusal of a callback that is nil. The reader of the
-- journal's files, the in-memory device of fixturedb and the broker's other commands are not modelled.
pub mod Prelude
pub mod DevicePath
pub mod Wire
pub mod Device
pub mod Filekind
pub mod Audit
pub mod Verify
pub mod Mtime
pub mod Errcode
pub mod Serial
pub mod Tests
