-- ===== src/Wire/Frame.antt =====
-- The sender's framing, and what the receiver makes of it.
use wei.Base.{
  ℕ, zero, suc, ◌-◌, ◌*◌, ◌/◌, ◌%◌, ◌^◌, ◌<◌, ◌≡◌, refl, ap, ◌∙◌, Bool, true, false, not, ◌&&◌,
  List, [], ◌∷◌, ◌++◌, arith, if◌then◌else◌, ltb, ◌==◌, length, length-append, take,
}
use native.Mathlib.Nat.{mul-mod_left, mul-div_cancel}
use wei.Base.Int.{ℤ}
use wei.Double.{Double}
use wei.Infer.Engine.{Engine, stage_record}
use wei.Infer.Engine.Membership.{IsMap, stage_record-IsMap, stage_record-tracker}
use wei.Wire.{Layout, map_record, drop, header_size, tlv_of, stage_entries, on_datagram}

abbrev pub concat : List (List ℕ) → List ℕ
concat [] = []
concat (e ∷ es) = e ++ concat es

take-append : (xs ys : List ℕ) → take (length xs) (xs ++ ys) ≡ xs
take-append [] ys = refl
take-append (x ∷ xs) ys = ap (◌∷◌ x) (take-append xs ys)

drop-append : (xs ys : List ℕ) → drop (length xs) (xs ++ ys) ≡ ys
drop-append [] ys = refl
drop-append (x ∷ xs) ys = drop-append xs ys

take_sized : (n : ℕ) (xs ys : List ℕ) → length xs ≡ n → take n (xs ++ ys) ≡ xs
take_sized n xs ys h = rw (← h) (take-append xs ys)

drop_sized : (n : ℕ) (xs ys : List ℕ) → length xs ≡ n → drop n (xs ++ ys) ≡ ys
drop_sized n xs ys h = rw (← h) (drop-append xs ys)

module _ {D : Type 0} (d : Double D) (l : Layout) (clock : ℕ → ℤ) where
  stage_entries-IsMap :
      (n i : ℕ) (bytes : List ℕ) (eng : Engine D)
      → IsMap d eng.rows eng.count
      → let eng' = stage_entries d l clock n i bytes eng in IsMap d eng'.rows eng'.count
  unfolding stage_entries
  stage_entries-IsMap zero i bytes eng m = m
  stage_entries-IsMap (suc n) i bytes eng m =
      let entry = l.decode (take l.entry_size bytes) in
      stage_entries-IsMap n (suc i) (drop l.entry_size bytes) _
        (stage_record-IsMap d eng entry.mac (map_record entry) (clock i) m)

  -- The datagram is one whole frame of periodic statistics.
  abbrev pub is_whole : List ℕ → Bool
  is_whole bytes =
      not (ltb (length bytes) header_size)
      && (tlv_of l bytes).version == 1
      && (tlv_of l bytes).len == length bytes - header_size
      && (tlv_of l bytes).type_byte == 1
      && (tlv_of l bytes).elem_size == l.entry_size
      && (length bytes - header_size) % l.entry_size == 0

  abbrev pub entries_of : List ℕ → Engine D → Engine D
  entries_of bytes eng =
      stage_entries d l clock ((length bytes - header_size) / l.entry_size) 0 (tlv_of l bytes).value
        eng

  pub guarded :
      (bytes : List ℕ) (eng : Engine D)
      → on_datagram d l clock bytes eng ≡ (if is_whole bytes then entries_of bytes eng else eng)
  unfolding on_datagram
  guarded bytes eng = ground arith

  -- No datagram, however malformed, breaks the well-formedness of the membership map.
  pub on_datagram-IsMap :
      (bytes : List ℕ) (eng : Engine D)
      → IsMap d eng.rows eng.count
      → let eng' = on_datagram d l clock bytes eng in IsMap d eng'.rows eng'.count
  on_datagram-IsMap bytes eng m = rw (guarded bytes eng) (go (is_whole bytes))
    where
      go :
          (b : Bool)
          → let eng' = if b then entries_of bytes eng else eng in IsMap d eng'.rows eng'.count
      go true = stage_entries-IsMap _ 0 (tlv_of l bytes).value eng m
      go false = m

  -- Datagrams stage clients and leave the excursions alone.
  stage_entries-tracker :
      (n i : ℕ) (bytes : List ℕ) (eng : Engine D)
      → (stage_entries d l clock n i bytes eng).tracker ≡ eng.tracker
  unfolding stage_entries
  stage_entries-tracker zero i bytes eng = refl
  stage_entries-tracker (suc n) i bytes eng =
      let entry = l.decode (take l.entry_size bytes) in
      stage_entries-tracker n (suc i) (drop l.entry_size bytes) _
      ∙ stage_record-tracker d eng entry.mac (map_record entry) (clock i)

  pub on_datagram-tracker :
      (bytes : List ℕ) (eng : Engine D) → (on_datagram d l clock bytes eng).tracker ≡ eng.tracker
  on_datagram-tracker bytes eng = ap (λ e. e.tracker) (guarded bytes eng) ∙ go (is_whole bytes)
    where
      go : (b : Bool) → (if b then entries_of bytes eng else eng).tracker ≡ eng.tracker
      go true = stage_entries-tracker _ 0 (tlv_of l bytes).value eng
      go false = refl

  -- The entries of a frame are staged one after the other.
  abbrev pub stage_all : ℕ → List (List ℕ) → Engine D → Engine D
  stage_all i [] eng = eng
  stage_all i (e ∷ es) eng =
      stage_all (suc i) es (stage_record d eng (l.decode e).mac (map_record (l.decode e)) (clock i))

  abbrev pub AllSized : List (List ℕ) → Type 0
  AllSized [] = Unit {0}
  AllSized (e ∷ es) = (length e ≡ l.entry_size) × AllSized es

  stage_entries_step :
      (n i : ℕ) (bytes a rest : List ℕ) (eng : Engine D)
      → take l.entry_size bytes ≡ a
      → drop l.entry_size bytes ≡ rest
      → stage_entries d l clock (suc n) i bytes eng
        ≡ stage_entries d l clock n
            (suc i)
            rest
            (stage_record d eng (l.decode a).mac (map_record (l.decode a)) (clock i))
  unfolding stage_entries
  stage_entries_step n i bytes a rest eng first others = rw (← first, ← others) refl

  stage_entries-all :
      (es : List (List ℕ)) (i : ℕ) (eng : Engine D)
      → AllSized es
      → stage_entries d l clock (length es) i (concat es) eng ≡ stage_all i es eng
  unfolding stage_entries
  stage_entries-all [] i eng z = refl
  stage_entries-all (e ∷ es) i eng z =
      stage_entries_step (length es) i (e ++ concat es) e (concat es) eng
        (take_sized l.entry_size e (concat es) z.0) (drop_sized l.entry_size e (concat es) z.0)
      ∙ stage_entries-all es (suc i) _ z.1

  module _ (lo hi : ℕ → ℕ) where
    -- What `lq_ipc_sender` sends for some entries: the header, then their bytes.
    abbrev pub frame : List (List ℕ) → List ℕ
    frame es =
        let n = length (concat es) in
        1 ∷ 1 ∷ lo l.entry_size ∷ hi l.entry_size ∷ lo n ∷ hi n ∷ concat es

    length-concat :
        (es : List (List ℕ)) → AllSized es → length (concat es) ≡ length es * l.entry_size
    length-concat [] z = omega arith
    length-concat (e ∷ es) z =
        length-append e (concat es) ∙ (rw z.0 (omega (arith, length-concat es z.1)))

    module _ (stored : (n : ℕ) → n < 2 ^ 16 → l.load16 (lo n) (hi n) ≡ n) where
      frame-is_whole :
          (es : List (List ℕ))
          → l.entry_size < 2 ^ 16
          → AllSized es
          → length (concat es) < 2 ^ 16
          → is_whole (frame es) ≡ true
      frame-is_whole es small z fits =
          let whole : length (concat es) % l.entry_size ≡ 0 =
            rw (length-concat es z) (mul-mod_left (length es) l.entry_size) in
          ground (arith, stored l.entry_size small, stored (length (concat es)) fits, whole)

      frame-entries :
          (es : List (List ℕ))
          → 0 < l.entry_size
          → AllSized es
          → (length (frame es) - header_size) / l.entry_size ≡ length es
      frame-entries es some_size z =
          let n : length (frame es) - header_size ≡ length es * l.entry_size =
            omega (arith, length-concat es z) in
          rw n (mul-div_cancel (length es) some_size)

      -- If the receiver loads the 16-bit fields that the sender stores: a frame of entries of the
      -- right size, from 1 to 65535 bytes each and less than 65536 in all, stages each of them
      -- once, in order.
      pub on_datagram-frame :
          (es : List (List ℕ)) (eng : Engine D)
          → 0 < l.entry_size
          → l.entry_size < 2 ^ 16
          → AllSized es
          → length (concat es) < 2 ^ 16
          → on_datagram d l clock (frame es) eng ≡ stage_all 0 es eng
      on_datagram-frame es eng some_size small z fits =
          guarded (frame es) eng
          ∙ ap (λ b. if b then entries_of (frame es) eng else eng) (frame-is_whole es small z fits)
          ∙ ap (λ n. stage_entries d l clock n 0 (concat es) eng) (frame-entries es some_size z)
          ∙ stage_entries-all es 0 eng z

      take_short : (n : ℕ) (xs : List ℕ) → n < length xs → length (take n xs) ≡ n
      take_short zero xs h = refl
      take_short (suc n) [] h = absurd (omega arith)
      take_short (suc n) (x ∷ xs) h = ap suc (take_short n xs (omega arith))

      cut-is_whole :
          (es : List (List ℕ)) (n : ℕ)
          → length (concat es) < 2 ^ 16
          → n < length (frame es)
          → is_whole (take n (frame es)) ≡ false
      cut-is_whole es zero fits cut = refl
      cut-is_whole es (suc zero) fits cut = refl
      cut-is_whole es (suc (suc zero)) fits cut = refl
      cut-is_whole es (suc (suc (suc zero))) fits cut = refl
      cut-is_whole es (suc (suc (suc (suc zero)))) fits cut = refl
      cut-is_whole es (suc (suc (suc (suc (suc zero))))) fits cut = refl
      cut-is_whole es (suc (suc (suc (suc (suc (suc k)))))) fits cut =
          ground (arith, stored (length (concat es)) fits, take_short k (concat es) (omega arith))

      -- If the receiver loads the 16-bit fields that the sender stores: a frame of less than
      -- 65536 bytes of entries that is cut short anywhere stages nothing.
      pub on_datagram-truncated :
          (es : List (List ℕ)) (eng : Engine D) (n : ℕ)
          → length (concat es) < 2 ^ 16
          → n < length (frame es)
          → on_datagram d l clock (take n (frame es)) eng ≡ eng
      on_datagram-truncated es eng n fits cut =
          guarded (take n (frame es)) eng
          ∙ ap (λ b. if b then entries_of (take n (frame es)) eng else eng)
              (cut-is_whole es n fits cut)
