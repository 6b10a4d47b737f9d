-- ===== src/Rfc/Persist.antt =====
-- The flag of source/weid_rfc.c across a write of the file and a later read of it.
use wei.Base.{
  ℕ, ◌-◌, ◌<◌, ◌≡◌, ap, ◌∙◌, ◌⊎◌, inl, inr, Bool, true, false, ◌&&◌, some, [], ◌∷◌, arith, length,
  take_short, Option-cases,
}
use wei.Rfc.{
  Text, rfc_object, connperf_key, buf_max, Host, Rfc, read_file, item_of, flag_in, flag_of, truth,
  item_of, load, write_file, connperf_set,
}

-- What cJSON and <stdio.h> document: a document that is printed is parsed again, and its text is not
-- empty and fits its buffer with a NUL; the members of the document are those that were added;
-- `fputs` and `fclose` that succeed have stored the text.
pub record IsHost {J : Type 0} (host : Host J) : Type 0 where
  pub parse-print :
      (b : Bool) (cap : ℕ) (text : Text)
      → host.print (host.document b) cap ≡ some text
      → host.parse text ≡ some (host.document b)
  pub print_fits :
      (b : Bool) (cap : ℕ) (text : Text)
      → host.print (host.document b) cap ≡ some text
      → (0 < length text) × (length text < cap)
  pub item_lem :
      (b : Bool)
      → (obj : J) × (flag : J) × (host.item (host.document b) rfc_object ≡ some obj)
        × (host.item obj connperf_key ≡ some flag)
        × (host.is_bool flag ≡ true)
        × (host.is_true flag ≡ b)
  pub stored_lem :
      host.put_ok ≡ true → host.close_ok ≡ true → (text : Text) → host.stored text ≡ text

module _ {J : Type 0} (host : Host J) where
  -- Whether the write succeeds or not, the cached flag is the new one; and unless the file was opened
  -- for writing, it is as it was and the call fails.
  pub connperf_set_outcome :
      (rfc : Rfc) (b : Bool)
      → ((connperf_set host rfc b).0.connperf_enabled ≡ b)
        × ((host.open_write ≡ true)
            ⊎ (((connperf_set host rfc b).1 ≡ false)
                × ((connperf_set host rfc b).0.file ≡ rfc.file)))
  unfolding connperf_set write_file
  connperf_set_outcome rfc b = ground arith

  flag_of-document :
      IsHost host
      → (b : Bool) (text : Text) → 0 < length text
      → host.parse text ≡ some (host.document b)
      → flag_of host text ≡ b
  unfolding flag_of
  flag_of-document w b [] long parsed = absurd (omega arith)
  flag_of-document w b (c ∷ text) long parsed =
      let (obj, flag, at_obj, at_flag, typed, value) = w.item_lem b in
      let read_obj = ap (λ o. truth host (item_of host o connperf_key)) at_obj in
      let read_flag = ap (truth host) at_flag in
      ap (flag_in host) parsed
      ∙ read_obj
      ∙ read_flag
      ∙ ap (λ t. t && host.is_true flag) typed
      ∙ value

  -- What a call that succeeds has done.
  connperf_set_done :
      (rfc : Rfc) (b : Bool)
      → (connperf_set host rfc b).1 ≡ true
      → (text : Text) × (host.print (host.document b) buf_max ≡ some text)
        × ((connperf_set host rfc b).0.file ≡ some (host.stored text))
        × (host.put_ok ≡ true)
        × (host.close_ok ≡ true)
  unfolding connperf_set write_file
  connperf_set_done rfc b done = elim (Option-cases (host.print (host.document b) buf_max)) [
    | inl missing ↦ absurd (ground arith)
    | inr (text, printed) ↦ (text, printed, ground arith, ground arith, ground arith)
  ]

  pub load-connperf_set :
      (rfc : Rfc) (b : Bool)
      → IsHost host
      → host.open_read ≡ true
      → (connperf_set host rfc b).1 ≡ true
      → (load host (connperf_set host rfc b).0).connperf_enabled ≡ b
  unfolding load read_file
  load-connperf_set rfc b w readable done =
      let (text, printed, stored, put, closed) = connperf_set_done rfc b done in
      let (long, fits) = w.print_fits b buf_max text printed in
      let file = stored ∙ ap some (w.stored_lem put closed text) in
      let read = take_short (buf_max - 1) text (omega arith) in
      rw (file, readable, read)
        (flag_of-document w b text long (w.parse-print b buf_max text printed))
