-- ===== src/Upload/Program.antt =====
-- host/midex-fw-upload.c: the choice of the device and `main`, from the command line to the exit code.
-- What the C library and libusb answer is a parameter. The messages are left aside.
pub mod Device
pub mod Sizes
pub mod Outcomes
use midex_class_firmware.Base.{
  ℕ, zero, suc, ◌+◌, ◌%◌, ◌^◌, Bool, true, false, ◌||◌, ◌&&◌, ltb, ◌==◌, if◌then◌else◌, Option,
  none, some, List, [], ◌∷◌, ◌++◌, map, get_or,
}
use midex_class_firmware.Upload.{FwRecord, parse_ihex}
use midex_class_firmware.Upload.Transfer.{Transfer, Reply, upload}

-- MIDEX_VID
abbrev pub midex_vid : ℕ
midex_vid = 0x0A4E

-- `loader_pids`, and the loop that looks for a product among them.
abbrev pub loader_pids : List ℕ
loader_pids = 0x1000 ∷ 0x1010 ∷ 0x1100 ∷ []

abbrev pub is_among : ℕ → List ℕ → Bool
is_among k [] = false
is_among k (x ∷ xs) = (k == x) || is_among k xs

-- A device on the bus, as libusb tells: whether its descriptor can be read, the two numbers there, and
-- whether it can be opened.
pub record Attached : Type 0 where
  pub readable : Bool
  pub id_vendor : ℕ
  pub id_product : ℕ
  pub opens : Bool

-- `match`; none is a negative `want_pid`.
abbrev pub is_wanted : Option ℕ → ℕ → Bool
is_wanted none product = is_among product loader_pids
is_wanted (some pid) product = product == pid

-- The loop of `open_midex` from index `i` on: the index of the device that was opened.
unfoldable pub open_midex : ℕ → Option ℕ → ℕ → List Attached → Option ℕ
open_midex vid pid i [] = none
open_midex vid pid i (d ∷ ds) =
    let rest = open_midex vid pid (i + 1) ds in
    if d.readable && (d.id_vendor == vid)
    then (if is_wanted pid d.id_product then (if d.opens then some i else none) else rest)
    else rest

-- What the command line gives.
pub record Options : Type 0 where
  pub path : Option (List ℕ)
  pub vid : ℕ
  pub pid : Option ℕ

-- `vid = (uint16_t)v; pid = (int)p;`
abbrev pub device_option : ℕ × ℕ → Options → Options
device_option (v, p) o = record o {
  vid = v % 2 ^ 16;
  pid = if ltb (p % 2 ^ 32) (2 ^ 31) then some (p % 2 ^ 32) else none;
}

-- `-d`; 45 is `-` and 100 is `d`.
abbrev pub is_device_flag : List ℕ → Bool
is_device_flag (a ∷ b ∷ []) = (a == 45) && (b == 100)
is_device_flag _ = false

-- The branches of the loop without `-d`: an argument without a dash is the path.
abbrev pub plain : List ℕ → Options → Option Options
plain a o = if get_or a 0 0 == 45 then none else some (record o { path = some a })

-- What the program does to the outside, in order: libusb_open, libusb_control_transfer,
-- libusb_set_auto_detach_kernel_driver, libusb_claim_interface (whose answer it ignores),
-- libusb_close, libusb_exit and the `free` of the records.
pub data Call : Type 0 where
  opened : ℕ → Call
  sent : Transfer → Call
  detaching claimed closed exited freed : Call

-- The answers from outside: sscanf with "%x:%x", the lines of a file, libusb_init, the device list, and
-- libusb_control_transfer.
pub record World : Type 0 where
  pub strtol : ℕ → ℕ → ℕ × ℕ
  pub sscanf : List ℕ → Option (ℕ × ℕ)
  pub lines : List ℕ → Option (List (List ℕ))
  pub libusb_init : Bool
  pub attached : List Attached
  pub reply : List Transfer → Transfer → Reply

module _ (w : World) where
  -- The loop over `argv` from index 1; none is `return 1`.
  unfoldable pub parse_args : List (List ℕ) → Options → Option Options
  parse_args [] o = some o
  parse_args (a ∷ []) o = plain a o
  parse_args (a ∷ b ∷ rest) o = elim (is_device_flag a) [
    | true ↦ elim (w.sscanf b) [ none ↦ none | some vp ↦ parse_args rest (device_option vp o) ]
    | false ↦ elim (plain a o) [ none ↦ none | some q ↦ parse_args (b ∷ rest) q ]
  ]

  -- `fopen` and `parse_ihex`
  unfoldable pub read_image : List ℕ → Option (List FwRecord)
  read_image path = elim (w.lines path) [ none ↦ none | some ls ↦ parse_ihex w.strtol 0 ls ]

  -- From `open_midex` on, up to `out_ctx`.
  unfoldable pub with_context : Options → List FwRecord → ℕ × List Call
  with_context o rs = elim (open_midex o.vid o.pid 0 w.attached) [
    | none ↦ (1, [])
    | some i ↦
        let (done, log) = upload w.reply rs in
        (if done then 0 else 1, opened i ∷ detaching ∷ claimed ∷ map sent log ++ (closed ∷ []))
  ]

  -- From `libusb_init` on, with the labels `out_ctx` and `out_recs`.
  unfoldable pub with_records : Options → List FwRecord → ℕ × List Call
  with_records o rs =
      if w.libusb_init
      then (let (rc, calls) = with_context o rs in (rc, calls ++ (exited ∷ freed ∷ [])))
      else (1, freed ∷ [])

  -- `main`: the exit code, and what was done.
  unfoldable pub main : List (List ℕ) → ℕ × List Call
  main args = elim (parse_args args (record { path = none; vid = midex_vid; pid = none })) [
    | none ↦ (1, [])
    | some o ↦ elim o.path [
      | none ↦ (1, [])
      | some path ↦ elim (read_image path) [ none ↦ (1, []) | some rs ↦ with_records o rs ]
    ]
  ]
