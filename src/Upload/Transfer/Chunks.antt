-- ===== src/Upload/Transfer/Chunks.antt =====
-- What the loops over the records and their chunks send.
use mathlib.Core.Path.{subst}
use midex_class_firmware.Base.{
  ℕ, zero, suc, ◌+◌, ◌-◌, ◌*◌, ◌%◌, ◌<◌, ◌≤◌, ◌≡◌, ◌⊎◌, ◌∙◌, sym, ap, ap₂, refl, inl, inr, Bool,
  true, false, Bool-cases, ltb, List, [], ◌∷◌, ◌++◌, length, take, drop, min, concat_map,
  concat_map-append, append_assoc, append-nil, Each, Each-append, arith,
}
use midex_class_firmware.Upload.{FwRecord}
use midex_class_firmware.Upload.Transfer.Cells.{
  cells, length-drop, length-take, cells-empty, cells-chunk,
}
use midex_class_firmware.Upload.Transfer.{
  Transfer, Reply, moved, anchor_write, write_chunks, write_records, is_zero,
}
use midex_class_firmware.Upload.Transfer.Taken.{
  zero_taken, zero_refused, IsTaken, AllTaken, IsCutShort, refused, later, AllTaken-append,
  IsCutShort-behind,
}

abbrev pub written : Transfer → List (ℕ × ℕ)
written t = cells t.addr t.payload

abbrev pub image : FwRecord → List (ℕ × ℕ)
image r = cells r.addr r.bytes

-- A write that the ROM loader takes.
abbrev pub IsChunk : Transfer → Type 0
IsChunk t = (0 < length t.payload) × (length t.payload ≤ 64)

module _ (reply : List Transfer → Transfer → Reply) where
  -- What a part of the upload has done behind the transfers `log`: the chunks that it sent. Where it
  -- reports success all were taken and they are the whole of `want`; where it reports failure the last
  -- was not.
  pub record Sent (want : List (ℕ × ℕ)) (log : List Transfer) (out : Bool × List Transfer)
      : Type 0 where
    pub chunks : List Transfer
    pub logged : out.1 ≡ log ++ chunks
    pub sized : Each IsChunk chunks
    pub ending :
        ((out.0 ≡ true) × AllTaken reply log chunks × (concat_map written chunks ≡ want))
        ⊎ ((out.0 ≡ false) × IsCutShort reply log chunks)

  -- A chunk in front of what follows it.
  after_chunk :
      (t : Transfer) (want rest : List (ℕ × ℕ)) (log : List Transfer) (out : Bool × List Transfer)
      → IsChunk t
      → IsTaken reply log t
      → want ≡ written t ++ rest
      → Sent rest (log ++ (t ∷ [])) out
      → Sent want log out
  after_chunk t want rest log out c taken split d = record {
    chunks = t ∷ d.chunks;
    logged = d.logged ∙ append_assoc log (t ∷ []) d.chunks;
    sized = (c, d.sized);
    ending = elim d.ending [
      | inl e ↦ inl (e.0, (taken, e.1), ap (λ l. written t ++ l) e.2 ∙ sym split)
      | inr e ↦ inr (e.0, later taken e.1)
    ];
  }

  failed_chunk :
      (t : Transfer) (want : List (ℕ × ℕ)) (log : List Transfer)
      → IsChunk t
      → ¬ IsTaken reply log t
      → Sent want log (false, log ++ (t ∷ []))
  failed_chunk t want log c bad = record {
    chunks = t ∷ [];
    logged = refl;
    sized = (c, tt);
    ending = inr (refl, refused bad);
  }

  nothing :
      (off : ℕ) (r : FwRecord) (log : List Transfer)
      → r.len ≡ length r.bytes
      → r.len ≤ off
      → Sent (cells (r.addr + off) (drop off r.bytes)) log (true, log)
  nothing off r log h l = record {
    chunks = [];
    logged = sym (append-nil log);
    sized = tt;
    ending = inl (
      refl,
      tt,
      sym (cells-empty (r.addr + off) (drop off r.bytes) (omega (arith, length-drop off r.bytes))),
    );
  }

  write_chunks-Sent :
      (fuel off : ℕ) (r : FwRecord) (log : List Transfer)
      → r.len ≡ length r.bytes
      → off ≤ r.len
      → r.len - off ≤ 64 * fuel
      → Sent (cells (r.addr + off) (drop off r.bytes)) log (write_chunks reply fuel r off log)
  unfolding write_chunks anchor_write
  write_chunks-Sent zero off r log h l f = nothing off r log h (omega arith)
  write_chunks-Sent (suc fuel) off r log h l f = elim (Bool-cases (ltb off r.len)) [
    | inr e ↦ rw (e, write_chunks) (nothing off r log h (ground arith))
    | inl e ↦
        let k = min (r.len - off) 64 in
        let t : Transfer = record {
          addr = (r.addr + off) % 65536;
          payload = take k (drop off r.bytes);
        } in
        let fits : off + k ≤ length r.bytes = ground arith in
        let size : length t.payload ≡ k =
          length-take k (drop off r.bytes) (omega (arith, length-drop off r.bytes)) in
        let small : IsChunk t = (ground arith, ground arith) in
        elim (Bool-cases (is_zero k (reply log t))) [
          | inr bad ↦
              rw (e, bad, write_chunks)
                (failed_chunk t (cells (r.addr + off) (drop off r.bytes)) log small (
                  subst (λ n. ¬ ((reply log t ≡ moved n) ⊎ (reply log t ≡ moved 0))) (sym size)
                    (zero_refused k (reply log t) bad)))
          | inl ok ↦
              rw (e, ok, write_chunks)
                (after_chunk t (cells (r.addr + off) (drop off r.bytes))
                  (cells (r.addr + (off + k)) (drop (off + k) r.bytes)) log
                  (write_chunks reply fuel r (off + k) (log ++ (t ∷ []))) small
                  (subst (λ n. (reply log t ≡ moved n) ⊎ (reply log t ≡ moved 0)) (sym size)
                    (zero_taken k (reply log t) ok))
                  (cells-chunk r.addr off k r.bytes fits)
                  (write_chunks-Sent fuel (off + k) r (log ++ (t ∷ [])) h (omega (arith, fits, h))
                    (ground arith)))
        ]
  ]

  record-Sent :
      (r : FwRecord) (log : List Transfer)
      → r.len ≡ length r.bytes
      → r.len < 256
      → Sent (image r) log (write_chunks reply 5 r 0 log)
  record-Sent r log h l =
      let start : r.addr + 0 ≡ r.addr = omega arith in
      subst (λ a. Sent (cells a r.bytes) log (write_chunks reply 5 r 0 log)) start
        (write_chunks-Sent 5 0 r log h (omega arith) (omega arith))

  -- One part behind another.
  both :
      (want rest : List (ℕ × ℕ)) (log : List Transfer) (one out : Bool × List Transfer)
      → Sent want log one
      → one.0 ≡ true
      → Sent rest one.1 out
      → Sent (want ++ rest) log out
  both want rest log one out d e f = record {
    chunks = d.chunks ++ f.chunks;
    logged = f.logged ∙ ap (λ l. l ++ f.chunks) d.logged ∙ append_assoc log d.chunks f.chunks;
    sized = Each-append IsChunk d.chunks f.chunks d.sized f.sized;
    ending = elim d.ending [
      | inr g ↦ absurd (cc (e, g.0))
      | inl g ↦ elim f.ending [
        | inl k ↦ inl (
          k.0,
          AllTaken-append reply log d.chunks f.chunks g.1
              (subst (λ l. AllTaken reply l f.chunks) d.logged k.1),
          concat_map-append written d.chunks f.chunks ∙ ap₂ ◌++◌ g.2 k.2,
        )
        | inr k ↦ inr (
          k.0,
          IsCutShort-behind reply log d.chunks f.chunks g.1
              (subst (λ l. IsCutShort reply l f.chunks) d.logged k.1),
        )
      ]
    ];
  }

  broken :
      (want rest : List (ℕ × ℕ)) (log : List Transfer) (one : Bool × List Transfer)
      → Sent want log one
      → one.0 ≡ false
      → Sent rest log (false, one.1)
  broken want rest log one d bad = record {
    chunks = d.chunks;
    logged = d.logged;
    sized = d.sized;
    ending = elim d.ending [ inl e ↦ absurd (cc (e.0, bad)) | inr e ↦ inr (refl, e.1) ];
  }

  pub write_records-Sent :
      (rs : List FwRecord) (log : List Transfer)
      → Each (λ r. (r.len ≡ length r.bytes) × (r.len < 256)) rs
      → Sent (concat_map image rs) log (write_records reply rs log)
  unfolding write_records
  write_records-Sent [] log v = record {
    chunks = [];
    logged = sym (append-nil log);
    sized = tt;
    ending = inl (refl, tt, refl);
  }
  write_records-Sent (r ∷ rs) log v =
      let one = write_chunks reply 5 r 0 log in
      let d = record-Sent r log v.0.0 v.0.1 in
      elim (Bool-cases one.0) [
        | inl e ↦
            rw (e, write_records)
              (both (image r) (concat_map image rs) log one (write_records reply rs one.1) d e
                (write_records-Sent rs one.1 v.1))
        | inr e ↦
            rw (e, write_records) (broken (image r) (image r ++ concat_map image rs) log one d e)
      ]
