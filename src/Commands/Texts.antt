-- ===== src/Commands/Texts.antt =====
-- The texts of help and info.
use vsync.Prelude.{List, [], codes, cstr, if◌then◌else◌, ℕ, ◌++◌, ◌∷◌}
use Prim.Native.String.{String}
use vsync.Machine.{Io, IoLaws}
use vsync.Machine.Effects.{Prints}
use vsync.Console.{shell_puts}
use vsync.Console.Says.{◌then◌, Says, says_text, says_newline}
use vsync.Commands.System.{cmd_help, cmd_info}

-- Texts one after the other.
abbrev texts : List String → List ℕ
texts [] = []
texts (t ∷ ts) = codes t ++ texts ts

abbrev pub help_text : List ℕ
help_text = texts (
    "VSync Shell Commands:\r\n" ∷ "  help                  Show this help\r\n"
    ∷ "  peek <addr> [count]   Read memory (hex addr, max 16 words)\r\n"
    ∷ "  poke <addr> <value>   Write memory (hex addr & value)\r\n"
    ∷ "  load [addr]           Load hex words via UART (default: 0x0)\r\n"
    ∷ "  go [addr]             Jump to address (default: 0x0)\r\n"
    ∷ "  rtos                  Show RTOS scheduler state\r\n"
    ∷ "  gpio                  Show all GPIO registers\r\n"
    ∷ "  gpio read             Read GPIO input value\r\n"
    ∷ "  gpio write <val>      Set GPIO output (hex)\r\n"
    ∷ "  gpio dir <mask>       Set GPIO direction (hex, 1=out)\r\n"
    ∷ "  uart                  Show UART status/control\r\n"
    ∷ "  info                  System information\r\n"
    ∷ "  uptime                Show uptime from CLINT mtime\r\n" ∷ [])

abbrev pub info_text : List ℕ
info_text = texts (
    "=== VSync System Information ===\r\n" ∷ "  Architecture : RV32IM\r\n"
    ∷ "  Clock        : 25 MHz\r\n" ∷ "  RTOS         : Hardware Task Scheduler\r\n" ∷ "\r\n"
    ∷ "  Memory Map:\r\n" ∷ "    IMEM       : 0x00000000 - 0x0000FFFF (64 KB)\r\n"
    ∷ "    DMEM       : 0x00010000 - 0x00013FFF (16 KB)\r\n"
    ∷ "    CLINT      : 0x02000000 - 0x0200FFFF\r\n"
    ∷ "    PLIC       : 0x0C000000 - 0x0C000FFF\r\n"
    ∷ "    UART       : 0x10000000 - 0x100000FF\r\n"
    ∷ "    GPIO       : 0x10000100 - 0x100001FF\r\n"
    ∷ "    RTOS       : 0x11000000 - 0x1100FFFF\r\n"
    ∷ "    POSIX      : 0x12000000 - 0x1200FFFF\r\n"
    ∷ "    HyperRAM   : 0x20000000 - 0x2FFFFFFF (256 MB)\r\n" ∷ [])

module _ {S : Type 0} (io : Io S) (laws : IoLaws io) where
  text : (s : List ℕ) → Says laws.input laws.log (shell_puts io s) (cstr s)
  text = says_text io laws

  pub cmd_help-Prints : Prints laws.input laws.log (cmd_help io) help_text
  unfolding cmd_help
  cmd_help-Prints =
      (text (codes "VSync Shell Commands:\r\n")
        then text (codes "  help                  Show this help\r\n")
        then text (codes "  peek <addr> [count]   Read memory (hex addr, max 16 words)\r\n")
        then text (codes "  poke <addr> <value>   Write memory (hex addr & value)\r\n")
        then text (codes "  load [addr]           Load hex words via UART (default: 0x0)\r\n")
        then text (codes "  go [addr]             Jump to address (default: 0x0)\r\n")
        then text (codes "  rtos                  Show RTOS scheduler state\r\n")
        then text (codes "  gpio                  Show all GPIO registers\r\n")
        then text (codes "  gpio read             Read GPIO input value\r\n")
        then text (codes "  gpio write <val>      Set GPIO output (hex)\r\n")
        then text (codes "  gpio dir <mask>       Set GPIO direction (hex, 1=out)\r\n")
        then text (codes "  uart                  Show UART status/control\r\n")
        then text (codes "  info                  System information\r\n")
        then text (codes "  uptime                Show uptime from CLINT mtime\r\n")).prints

  pub cmd_info-Prints : Prints laws.input laws.log (cmd_info io) info_text
  unfolding cmd_info
  cmd_info-Prints =
      (text (codes "=== VSync System Information ===\r\n")
        then text (codes "  Architecture : RV32IM\r\n")
        then text (codes "  Clock        : 25 MHz\r\n")
        then text (codes "  RTOS         : Hardware Task Scheduler\r\n")
        then says_newline io laws
        then text (codes "  Memory Map:\r\n")
        then text (codes "    IMEM       : 0x00000000 - 0x0000FFFF (64 KB)\r\n")
        then text (codes "    DMEM       : 0x00010000 - 0x00013FFF (16 KB)\r\n")
        then text (codes "    CLINT      : 0x02000000 - 0x0200FFFF\r\n")
        then text (codes "    PLIC       : 0x0C000000 - 0x0C000FFF\r\n")
        then text (codes "    UART       : 0x10000000 - 0x100000FF\r\n")
        then text (codes "    GPIO       : 0x10000100 - 0x100001FF\r\n")
        then text (codes "    RTOS       : 0x11000000 - 0x1100FFFF\r\n")
        then text (codes "    POSIX      : 0x12000000 - 0x1200FFFF\r\n")
        then text (codes "    HyperRAM   : 0x20000000 - 0x2FFFFFFF (256 MB)\r\n")).prints
