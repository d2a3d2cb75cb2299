-- ===== src/Lib.antt =====
-- The Python tools of the repository: the grading of the system-call tests, the flashing of a K210
-- board, and the generation of the assembly file that embeds the user programs.
--
-- The parts, and the code that each file models (paths from the repository's root):
--   TestBase     user/src/oscomp/test_base.py: the class TestBase. A run of a test is a state monad
--                over self.result with the exceptions that start swallows.
--   Cases        user/src/oscomp/*_test.py: X_run is the method test of X_test.py, in the modules
--                Process, Files, Tree and System; Registry has the objects X_test and their list.
--   Runner       user/src/oscomp/test_runner.py: Discover is the loop over the directory, with the
--                import of a script as a parameter; the record Loop is the variables of the loop over
--                the serial log, step its body, grade what follows the imports.
--   Ktool        user/src/oscomp/ktool.py: Slip is the framing, Packet the requests, Response the
--                replies, Port the calls that read and write, Greeting, Transfer and Memory
--                the operations of MAIXLoader on these, Reset what its resets do to the control
--                lines, Display its progress bar and the size of the terminal.
--   Process      user/src/oscomp/ktool.py: the run of KTool.process. Args is its namespace, Command the
--                declarations of its command line, World what it
--                takes from its surroundings, Detect the search for the board, FlashList the text of
--                flash-list.json, Flow the steps in their order and the status of main. The proofs
--                on whole runs: Front, Stages and Whole (a flash), Unpack (a kfpkg archive), Jobs
--                (erase and read), Sram (a program in SRAM), Stall and Progress (where a run may wait).
--   LinkApp      link_app.py: Directive is a line of the assembly file, asm_text its text.
--   SshRun       user/src/oscomp/ssh_run.py: the flashing rounds and the recording loops; the record
--                Script is what a run has done, main the script.
--   CheckTests   check_tests.py.
--   Regex        the part of Python's re that these scripts call.
--   Base         shared helpers: texts as lists of code points, lists and integers over native
--                numbers, and str.replace, str.split and int of Python (Number).
--   Examples     tests, and the theorems at concrete inputs.
-- The runner starts the tests of Cases through TestBase; the operations of Greeting and Transfer
-- go through Port, which frames by Slip, packs by Packet and parses by Response.
--
-- The serial port is a list of events, what each read to come will meet: a byte, no byte within
-- the port's timeout, or the expiry of the receive deadline. A receive that uses up the list ends
-- with `dry`, and the operation with `stalled`, which stands for code that still waits; bytes that
-- flushInput discards are no events. A write is appended to `sent`. After raise_exception the port
-- is closed, and a read or a write on it raises, as pyserial documents. sha256 and the AES
-- encryption (a copy of pyaes in the file) are parameters, and so are the segments of an ELF file,
-- directory listings, os.path.join and os.path.isfile.
--
-- Fuel: findall and sub take the length of the text, and each round takes a character; chunks takes the
-- length of the data, and each round takes a byte; the resend loop of install_flash_bootloader
-- takes the number of events, and each try reads one; read_flash takes the size, and each round
-- counts a byte; decimal takes the number, which each round divides. Digits, letters and blanks
-- are those of ASCII. A text of UTF-8 is kept as its bytes.
--
-- The library calls of process are fields of World: list_ports.grep and the order of its results,
-- serial.Serial, the files, os.path.splitext, zipfile, the entries that json reads from the
-- list of an archive,
-- pyelftools, sha256 and the AES class. KTool.kill comes from another thread, which is a call of kill
-- between two steps; process clears the flag of the tool when it begins. The search for the board has 15 rounds as in the
-- source, and the theorem about it holds for every number of rounds.
--
-- argparse is a parameter of Command, which reads no more of its namespace than the tool does; a
-- negative number there is the value `negative`, since Args holds natural numbers.
--
-- The exception of serial.Serial on a port that cannot be opened, which pyserial documents, is the
-- `none` of Half.opens and the failure no_serial. The segment address that load_elf_to_sram gives in
-- place of a key is left out, as flash_firmware reads no key where it writes to SRAM.
--
-- Not modelled: the C programs and their library, the build scripts, json.loads,
-- miniterm behind the start of a terminal, ISP_PROG, and what only logs.
pub mod Base
pub mod Regex
pub mod TestBase
pub mod Cases
pub mod Runner
pub mod Ktool
pub mod Process
pub mod LinkApp
pub mod SshRun
pub mod CheckTests
mod Examples
