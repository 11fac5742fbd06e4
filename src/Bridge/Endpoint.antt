-- ===== src/Bridge/Endpoint.antt =====
-- EP2-OUT between two calls of `bridge_out`, and what the packet at hand still has for a port.
use midex_class_firmware.Base.{
  ℕ, zero, suc, ◌+◌, ◌-◌, ◌/◌, ◌≤◌, ◌≡◌, ◌∙◌, sym, ap, true, false, if◌then◌else◌, List, [], ◌++◌,
  arith, append_assoc,
}
use midex_class_firmware.Bridge.{Tx}
use midex_class_firmware.Bridge.Pass.{data_for, data_of, index}
use midex_class_firmware.Bridge.Pump.{Keeps}

-- The endpoint between two actions: a packet that is being decoded fits the endpoint and the
-- resume offset stands inside it, and the endpoint is open only when there is none.
pub record Endpoint (s : Tx) : Type 0 where
  pub fits : s.semaphore_ep2_out ≡ true → (s.out2bc ≤ 64) × (s.out_off ≤ s.out2bc)
  pub rested : s.semaphore_ep2_out ≡ false → s.out_off ≡ 0
  pub exclusive : s.armed ≡ true → s.semaphore_ep2_out ≡ false

pub data_of_split :
    (p : ℕ) (buf : ℕ → ℕ) (i j k : ℕ)
    → data_of p buf i (j + k) ≡ data_of p buf i j ++ data_of p buf (index i j) k
data_of_split p buf i zero k = ap (data_of p buf i) (omega arith)
data_of_split p buf i (suc j) k =
    let sum : suc j + k ≡ suc (j + k) = omega arith in
    ap (data_of p buf i) sum
    ∙ ap (λ l. data_for p buf i ++ l) (data_of_split p buf (i + 4) j k)
    ∙ sym (
        append_assoc (data_for p buf i) (data_of p buf (i + 4) j)
          (data_of p buf (index (i + 4) j) k))

-- What the packet at hand still has for port `p`.
abbrev pub left : ℕ → Tx → List ℕ
left p s =
    if s.semaphore_ep2_out then data_of p s.out2buf s.out_off ((s.out2bc - s.out_off) / 4) else []

pub left-Keeps : (p : ℕ) {s t : Tx} → Keeps s t → left p t ≡ left p s
left-Keeps p k = rw (k.same_flag, k.same_buf, k.same_off, k.same_bc)
