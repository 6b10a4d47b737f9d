-- ===== src/Perfreport/Buffer.antt =====
-- The buffer that every report is printed into.
use wei.Base.{ℕ, ◌+◌, ◌≤◌, ◌≡◌, ◌⊎◌, true, false, Option, none, some, arith}
use wei.Perfreport.{
  Host, Report, Printing, printed, refused, print_from, json_serialize, grown, buf_max,
}

-- The sizes that the buffer ever has; a NULL buffer is `none`.
abbrev pub IsCapacity : Option ℕ → Type 0
IsCapacity none = Unit {0}
IsCapacity (some cap) = (cap ≡ 512) ⊎ (cap ≡ 1024) ⊎ (cap ≡ 2048)

-- A report buffer that is NULL or has 512, 1024 or 2048 bytes is so after every document,
-- whatever the allocator does.
pub json_serialize-IsCapacity :
    (host : Host) (doc : Report) (buf : Option ℕ)
    → IsCapacity buf
    → IsCapacity (json_serialize host doc buf).0
unfolding json_serialize print_from
json_serialize-IsCapacity host doc none c = ground arith
json_serialize-IsCapacity host doc (some cap) c = ground arith

-- The loop has ended: the buffer takes the document, or it does not and cannot grow.
unfoldable pub Ends : Host → Report → ℕ × Printing → Type 0
Ends host doc (cap, how) =
    ((how ≡ printed) × (host.fits doc cap ≡ true))
    ⊎ ((how ≡ refused)
        × (host.fits doc cap ≡ false)
        × ((buf_max ≤ cap) ⊎ (host.realloc_ok (grown cap) ≡ false)))

-- From a buffer of 512, 1024 or 2048 bytes the printing loop ends within three turns, and more turns
-- change nothing: either the document is printed into a buffer that takes it, or the loop ends at a
-- buffer that does not take it and is at the ceiling of 2048 bytes or gets no more memory.
pub print_from-Ends :
    (fuel : ℕ) (host : Host) (doc : Report) (cap : ℕ)
    → IsCapacity (some cap)
    → (print_from (3 + fuel) host doc cap ≡ print_from 3 host doc cap)
      × Ends host doc (print_from 3 host doc cap)
unfolding print_from Ends
print_from-Ends fuel host doc cap c = ground arith

-- While the allocator gives memory and the buffer is NULL or has 512, 1024 or 2048 bytes: a
-- document that fits every buffer larger than one that it fits is serialized exactly if it fits
-- 2048 bytes.
pub json_serialize-fits :
    (host : Host) (doc : Report) (buf : Option ℕ)
    → host.malloc_ok ≡ true
    → ((n : ℕ) → host.realloc_ok n ≡ true)
    → ((m n : ℕ) → m ≤ n → host.fits doc m ≡ true → host.fits doc n ≡ true)
    → IsCapacity buf
    → (json_serialize host doc buf).1 ≡ host.fits doc buf_max
unfolding json_serialize print_from
json_serialize-fits host doc none ok re mono c =
    ground (arith, re 1024, re 2048, mono 512 2048, mono 1024 2048)
json_serialize-fits host doc (some cap) ok re mono c =
    ground (arith, re 1024, re 2048, mono 512 2048, mono 1024 2048)
