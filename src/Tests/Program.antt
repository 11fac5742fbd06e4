-- ===== src/Tests/Program.antt =====
-- The uploader's `main`, on a file of one record and a bus of two devices.
use midex_class_firmware.Base.{◌≡◌, refl, true, some, none, [], ◌∷◌}
use midex_class_firmware.Upload.Record.{checksum, line_with, end_line}
use midex_class_firmware.Upload.Program.{Attached, World, open_midex}
use midex_class_firmware.Tests.Startup.{strtol, jump, loader}

abbrev keyboard : Attached
keyboard = record { readable = true; id_vendor = 0x1234; id_product = 0x1000; opens = true }

abbrev midex : Attached
midex = record { readable = true; id_vendor = 0x0A4E; id_product = 0x1010; opens = true }

abbrev desk : World
desk = record {
  strtol = strtol;
  sscanf = λ a. none;
  lines = λ path. some (line_with (checksum jump) jump ∷ end_line ∷ []);
  libusb_init = true;
  attached = keyboard ∷ midex ∷ [];
  reply = loader;
}

-- The second device is opened.
opens_midex : open_midex 0x0A4E none 0 desk.attached ≡ some 1
unfolding open_midex
opens_midex = refl
