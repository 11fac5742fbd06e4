-- ===== src/Descriptors/Walk.antt =====
-- A host's reading of the configuration block: by the length byte of each descriptor.
use midex_class_firmware.Base.{
  ℕ, zero, suc, ◌+◌, ◌*◌, ◌<◌, ◌≡◌, refl, Bool, true, false, ◌&&◌, ◌||◌, Option, none, some, ltb,
  ◌==◌, if◌then◌else◌, List, [], ◌∷◌, length, take, drop, get_or, passes_below, passes_below_sound,
}
use midex_class_firmware.Config.{num_midi_ports}
use midex_class_firmware.Descriptors.{
  config_block, config_head, config_endpoints, midi_port_jacks, desc_midi_in_jack,
  desc_midi_out_jack, jack_embedded, jack_external,
}

-- A descriptor in front of those behind it.
cons_some : List ℕ → Option (List (List ℕ)) → Option (List (List ℕ))
cons_some d none = none
cons_some d (some ds) = some (d ∷ ds)

-- The descriptors of a block, on fuel; none when a length is zero or runs past the end.
unfoldable pub descriptors : ℕ → List ℕ → Option (List (List ℕ))
unfolding cons_some
descriptors zero block = none
descriptors (suc fuel) [] = some []
descriptors (suc fuel) (n ∷ rest) =
    let more = descriptors fuel (drop n (n ∷ rest)) in
    if (n == 0) || ltb (length (n ∷ rest)) n then none else cons_some (take n (n ∷ rest)) more

-- A jack's descriptor: a class-specific one for a MIDI IN or a MIDI OUT jack.
abbrev pub is_jack : List ℕ → Bool
is_jack d = (get_or d 1 0 == 0x24) && ((get_or d 2 0 == 0x02) || (get_or d 2 0 == 0x03))

-- The jacks whose byte `k` is `x`. A MIDI IN jack has 6 bytes, a MIDI OUT jack 9; a byte past the end
-- reads 0, which is no jack's id.
abbrev pub jacks : ℕ → ℕ → List (List ℕ) → List (List ℕ)
jacks k x [] = []
jacks k x (d ∷ ds) = if is_jack d && (get_or d k 0 == x) then d ∷ jacks k x ds else jacks k x ds

-- The jacks of the cables of the endpoint `address`: the class-specific descriptor behind it.
abbrev pub cables : ℕ → List (List ℕ) → List ℕ
cables address [] = []
cables address (d ∷ []) = []
cables address (d ∷ e ∷ ds) =
    if (get_or d 1 0 == 0x05) && (get_or d 2 0 == address)
    then drop 4 e
    else cables address (e ∷ ds)

-- The descriptor is that of a MIDI IN (2) or MIDI OUT (3) jack of this kind.
abbrev pub jack_is : ℕ → ℕ → List ℕ → Bool
jack_is sub kind d = (get_or d 2 0 == sub) && (get_or d 3 0 == kind)

-- A list of one descriptor, which passes the test.
abbrev pub only : List (List ℕ) → (List ℕ → Bool) → Bool
only (d ∷ []) test = test d
only _ test = false

-- The way of cable `p`. Its jack at the OUT endpoint is one embedded MIDI IN jack, the source of one
-- external MIDI OUT jack, which has the id 4p + 4. Its jack at the IN endpoint is one embedded MIDI
-- OUT jack, whose source is one external MIDI IN jack, which has the id 4p + 2.
abbrev pub out_way : List (List ℕ) → ℕ → Bool
out_way ds p =
    let a = get_or (cables 0x02 ds) p 0 in
    only (jacks 4 a ds) (jack_is 0x02 jack_embedded)
    && only (jacks 6 a ds) (λ d. jack_is 0x03 jack_external d && (get_or d 4 0 == 4 * p + 4))

abbrev pub in_way : List (List ℕ) → ℕ → Bool
in_way ds p =
    let b = get_or (cables 0x82 ds) p 0 in
    only (jacks 4 b ds) (λ d.
      jack_is 0x03 jack_embedded d
      && (get_or d 6 0 == 4 * p + 2)
      && only (jacks 4 (get_or d 6 0) ds) (jack_is 0x02 jack_external))

abbrev pub ways : Option (List (List ℕ)) → ℕ → Bool
ways none p = false
ways (some ds) p = out_way ds p && in_way ds p

ways_table : passes_below num_midi_ports (ways (descriptors 64 config_block)) ≡ true
unfolding passes_below descriptors cons_some config_block config_head config_endpoints
    midi_port_jacks desc_midi_in_jack desc_midi_out_jack
ways_table = refl

-- The configuration block has the length that its bytes 2 and 3 tell, and its descriptors follow one
-- another by their length bytes up to its end. In them every cable `p` below NUM_MIDI_PORTS leads
-- from the OUT endpoint to the external MIDI OUT jack 4p + 4 alone, and from the external MIDI IN
-- jack 4p + 2 alone to the IN endpoint.
pub config_block-ways :
    (p : ℕ)
    → p < num_midi_ports
    → (length config_block ≡ get_or config_block 2 0 + 256 * get_or config_block 3 0)
      × (ways (descriptors 64 config_block) p ≡ true)
unfolding config_block config_head config_endpoints midi_port_jacks desc_midi_in_jack
    desc_midi_out_jack
config_block-ways p h = (refl, passes_below_sound num_midi_ports _ p ways_table h)
