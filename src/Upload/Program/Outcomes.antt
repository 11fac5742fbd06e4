-- ===== src/Upload/Program/Outcomes.antt =====
-- What a run of the program comes to.
use midex_class_firmware.Base.{
  ℕ, ◌≡◌, Bool, true, false, if◌then◌else◌, none, some, List, [], ◌∷◌, ◌++◌, map,
}
use midex_class_firmware.Upload.{FwRecord, parse_ihex}
use midex_class_firmware.Upload.Transfer.{Transfer}
use midex_class_firmware.Upload.Transfer.Order.{Uploaded}
use midex_class_firmware.Upload.Program.{
  Options, Call, opened, detaching, claimed, sent, closed, exited, freed, World, parse_args,
  midex_vid,
}
use midex_class_firmware.Upload.Program.Device.{First, NoneOpens}

-- Where the command line starts from.
abbrev start : Options
start = record { path = none; vid = midex_vid; pid = none }

module _ (w : World) where
  -- A run that got as far as a device: it was the first that fits, and it is closed behind the
  -- transfers, which are those of `Uploaded` for the records of the file.
  pub record Reached (args : List (List ℕ)) (out : ℕ × List Call) : Type 0 where
    pub options : Options
    pub path : List ℕ
    pub lines : List (List ℕ)
    pub records : List FwRecord
    pub device : ℕ
    pub done : Bool × List Transfer
    pub parsed : parse_args w args start ≡ some options
    pub named : options.path ≡ some path
    pub file : w.lines path ≡ some lines
    pub image_read : parse_ihex w.strtol 0 lines ≡ some records
    pub first : First options.vid options.pid w.attached device true
    pub uploaded : Uploaded w.reply records done
    pub code : out.0 ≡ (if done.0 then 0 else 1)
    pub calls :
        out.1
        ≡ opened device ∷ detaching ∷ claimed ∷ map sent done.1 ++ (closed ∷ exited ∷ freed ∷ [])

  -- A run that did not: why, the exit code 1, and that nothing was opened or sent.
  pub data Stopped (args : List (List ℕ)) (out : ℕ × List Call) : Type 0 where
    bad_arguments : parse_args w args start ≡ none → out ≡ (1, []) → Stopped args out
    no_path :
        (o : Options)
        → parse_args w args start ≡ some o
        → o.path ≡ none
        → out ≡ (1, [])
        → Stopped args out
    no_file :
        (o : Options) (path : List ℕ)
        → parse_args w args start ≡ some o
        → o.path ≡ some path
        → w.lines path ≡ none
        → out ≡ (1, [])
        → Stopped args out
    bad_file :
        (o : Options) (path : List ℕ) (lines : List (List ℕ))
        → parse_args w args start ≡ some o
        → o.path ≡ some path
        → w.lines path ≡ some lines
        → parse_ihex w.strtol 0 lines ≡ none
        → out ≡ (1, [])
        → Stopped args out
    no_libusb : w.libusb_init ≡ false → out ≡ (1, freed ∷ []) → Stopped args out
    no_device_opens :
        (o : Options)
        → parse_args w args start ≡ some o
        → NoneOpens o.vid o.pid w.attached
        → out ≡ (1, exited ∷ freed ∷ [])
        → Stopped args out
