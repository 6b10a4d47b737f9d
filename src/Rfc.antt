-- ===== src/Rfc.antt =====
-- source/weid_rfc.c: the cached enable of the pillar and the file that it persists in. The file is its
-- bytes, or none where it does not exist. What cJSON and <stdio.h> do is the parameter `Host`.
pub mod Persist
pub mod Safe
pub mod Examples
use wei.Base.{
  ℕ, ◌-◌, Bool, true, false, ◌&&◌, not, Option, none, some, List, [], ◌∷◌, if◌then◌else◌, take,
}

abbrev pub Text : Type 0
Text = List ℕ

-- WEID_RFC_OBJECT and WEID_RFC_CONNPERF.
pub data Key : Type 0 where
  rfc_object connperf_key : Key

abbrev pub buf_max : ℕ
buf_max = 4096

-- `J` is the type of cJSON's nodes; NULL is `none`.
pub record Host (J : Type 0) : Type 0 where
  -- `cJSON_Parse`, `cJSON_GetObjectItemCaseSensitive` of a node that is there, `cJSON_IsBool` and
  -- `cJSON_IsTrue`.
  pub parse : Text → Option J
  pub item : J → Key → Option J
  pub is_bool : J → Bool
  pub is_true : J → Bool
  -- Whether `cJSON_CreateObject`, `cJSON_AddObjectToObject` and `cJSON_AddBoolToObject` give a node,
  -- the document that they then build, and `cJSON_PrintPreallocated` into a buffer of a size.
  pub created : Bool
  pub added_object : Bool
  pub added_bool : Bool
  pub document : Bool → J
  pub print : J → ℕ → Option Text
  -- Whether `fopen` gives a stream for reading a file that exists, and for writing; what `fputs` and
  -- `fclose` leave in the file, and whether each reports success.
  pub open_read : Bool
  pub open_write : Bool
  pub stored : Text → Text
  pub put_ok : Bool
  pub close_ok : Bool

-- The cached flag, and the file.
pub record Rfc : Type 0 where
  pub connperf_enabled : Bool
  pub file : Option Text

module _ {J : Type 0} (host : Host J) where
  -- At most `cap - 1` bytes; nothing where the file cannot be opened.
  unfoldable pub read_file : Option Text → ℕ → Text
  read_file none cap = []
  read_file (some text) cap = if host.open_read then take (cap - 1) text else []

  abbrev pub item_of : Option J → Key → Option J
  item_of none key = none
  item_of (some node) key = host.item node key

  abbrev pub truth : Option J → Bool
  truth none = false
  truth (some flag) = host.is_bool flag && host.is_true flag

  -- What a parsed document says.
  abbrev pub flag_in : Option J → Bool
  flag_in none = false
  flag_in (some doc) = truth (item_of (host.item doc rfc_object) connperf_key)

  -- What the text of the file says; the empty text stands for a file that is absent or empty.
  unfoldable pub flag_of : Text → Bool
  flag_of [] = false
  flag_of (c ∷ text) = flag_in (host.parse (c ∷ text))

  unfoldable pub load : Rfc → Rfc
  unfolding read_file flag_of
  load rfc = record rfc { connperf_enabled = flag_of (read_file rfc.file buf_max) }

  -- The text is written over the file, which `fopen` has made empty.
  unfoldable pub write_file : Rfc → Text → Rfc × Bool
  write_file rfc text =
      if host.open_write
      then (record rfc { file = some (host.stored text) }, host.put_ok && host.close_ok)
      else (rfc, false)

  -- The end of a call, by whether the document was printed.
  abbrev pub store : Rfc → Option Text → Rfc × Bool
  store rfc none = (rfc, false)
  store rfc (some text) = write_file rfc text

  -- The state afterwards, and `true` for the return value 0.
  unfoldable pub connperf_set : Rfc → Bool → Rfc × Bool
  connperf_set rfc enabled =
      let cached = record rfc { connperf_enabled = enabled } in
      if not host.created
      then (cached, false)
      else if not (host.added_object && host.added_bool)
      then (cached, false)
      else store cached (host.print (host.document enabled) buf_max)
