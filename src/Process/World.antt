-- ===== src/Process/World.antt =====
-- ktool.py: what `KTool.process` takes from its surroundings, and the choice of a port and of the
-- format of the firmware.
use user_basic.Base.{
  Bool, ◌&&◌, Option, none, some, List, [], ◌∷◌, Line, codes, line_eq, if◌then◌else◌, take,
}
use user_basic.Ktool.Slip.{Bytes}
use user_basic.Ktool.Memory.{Segment}
use user_basic.Process.FlashList.{FlashEntry}
use user_basic.Process.Args.{Board, go_e, trainer, Args}

-- The libraries, and the file system.
pub record World : Type 0 where
  -- The devices that `list_ports.grep` finds, in its order, and `sort` on them.
  pub grep : Line → List Line
  pub sort : List Line → List Line
  -- Whether `serial.Serial` can open a port, and whether MPyTerm is installed.
  pub opens : Line → Bool
  pub has_mpyterm : Bool
  -- `open` for reading, whether `open` for writing succeeds, and `os.path.splitext(path)[1]`.
  pub content_of : Line → Option Bytes
  pub writable : Line → Bool
  pub extension : Line → Line
  -- `zipfile` on a path, `none` being `BadZipFile`; the entries
  -- that `json.loads` finds in a text under `files`, `none` being its exceptions; pyelftools on the bytes of a file.
  pub unzip : Line → Option (Line → Option Bytes)
  pub json_files : Line → Option (List FlashEntry)
  pub segments : Bytes → List Segment
  -- `hashlib.sha256`, the AES class, and the default ISP program.
  pub sha256 : Bytes → Bytes
  pub encrypt : Bytes → List Bytes → List Bytes
  pub isp_prog : Bytes

abbrev first_of : List Line → Option Line
first_of [] = none
first_of (d ∷ ds) = some d

-- The second one, or the only one.
abbrev second_of : List Line → Option Line
second_of [] = none
second_of (d ∷ []) = some d
second_of (d ∷ e ∷ ds) = some e

abbrev pub vid_list : Line
vid_list = codes "(1A86)|(0403)|(067B)|(10C4)|(C251)|(0403)"

detect_port : World → Board → Option Line
detect_port w go_e = second_of (w.sort (w.grep (codes "0403")))
detect_port w trainer = first_of (w.sort (w.grep (codes "0403")))
detect_port w b = first_of (w.grep vid_list)

-- The port to be used; `none` is the exception where none is found.
unfoldable pub choose_port : World → Args → Option Line
unfolding detect_port
choose_port w a = if line_eq a.port (codes "DEFAULT") then detect_port w a.board else some a.port

-- `ProgramFileFormat`
pub data Format : Type 0 where
  fmt_binary fmt_elf fmt_kfpkg : Format

-- The format by the first four bytes, and `none` for an ELF file that is not for SRAM.
unfoldable pub format_of : World → Args → Bytes → Option Format
format_of w a content =
    if line_eq (take 4 content) (0x7f ∷ codes "ELF")
    then (if a.sram then some fmt_elf else none)
    else if line_eq (take 2 content) (codes "PK")
        && line_eq (w.extension a.firmware) (codes ".kfpkg")
    then some fmt_kfpkg
    else some fmt_binary
