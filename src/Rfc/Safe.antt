-- ===== src/Rfc/Safe.antt =====
-- The flag that `weid_rfc_load` of source/weid_rfc.c leaves, against the file.
use wei.Base.{
  ◌-◌, ◌≡◌, refl, inl, inr, true, Option, none, some, [], ◌∷◌, arith, take, Option-cases,
  Bool-cases,
}
use wei.Rfc.{
  Text, rfc_object, connperf_key, buf_max, Host, Rfc, read_file, flag_of, flag_in, item_of, load,
}

module _ {J : Type 0} (host : Host J) where
  -- The document has the Boolean member `true`.
  unfoldable pub SaysSo : J → Type 0
  SaysSo doc =
      (flag : J) × (item_of host (host.item doc rfc_object) connperf_key ≡ some flag)
      × (host.is_bool flag ≡ true)
      × (host.is_true flag ≡ true)

  flag_in-SaysSo :
      (parsed : Option J)
      → flag_in host parsed ≡ true
      → (doc : J) × (parsed ≡ some doc) × SaysSo doc
  unfolding SaysSo
  flag_in-SaysSo none set = absurd (ground arith)
  flag_in-SaysSo (some doc) set =
      elim (Option-cases (item_of host (host.item doc rfc_object) connperf_key)) [
        | inl missing ↦ absurd (ground arith)
        | inr (flag, found) ↦ (doc, refl, (flag, found, ground arith, ground arith))
      ]

  flag_of-SaysSo :
      (text : Text)
      → flag_of host text ≡ true
      → (doc : J) × (host.parse text ≡ some doc) × SaysSo doc
  unfolding flag_of
  flag_of-SaysSo [] set = absurd (ground arith)
  flag_of-SaysSo (c ∷ text) set = flag_in-SaysSo (host.parse (c ∷ text)) set

  -- If the pillar is enabled after a load, the file exists, can be opened, and its first 4095 bytes
  -- parse to a document whose member RFC.WhenConnected is the Boolean true.
  pub load-SaysSo :
      (rfc : Rfc)
      → (load host rfc).connperf_enabled ≡ true
      → (text : Text) × (rfc.file ≡ some text)
        × (host.open_read ≡ true)
        × ((doc : J) × (host.parse (take (buf_max - 1) text) ≡ some doc) × SaysSo doc)
  unfolding load read_file flag_of
  load-SaysSo rfc set = elim (Option-cases rfc.file) [
    | inl missing ↦ absurd (ground arith)
    | inr (text, found) ↦ elim (Bool-cases host.open_read) [
      | inl readable ↦ (text, found, readable, flag_of-SaysSo (take 4095 text) (ground arith))
      | inr unreadable ↦ absurd (ground arith)
    ]
  ]
