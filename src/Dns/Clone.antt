-- ===== src/Dns/Clone.antt =====
-- libx/x/dns/dns_packet.c: copies of record lists, in blocks that the allocator may refuse.
use x.Base.{ℕ, suc, List, [], ◌∷◌, ◌++◌, Bool, Option, some, none, ◌==◌, if◌then◌else◌, take}
use x.Dns.Response.{Given}

-- The allocator's requests so far and the blocks in use, each named by its request.
pub record Heap : Type 0 where
  pub requests : ℕ
  pub live : List ℕ

-- calloc and malloc: `grant` tells which requests are granted.
unfoldable pub alloc : (ℕ → Bool) → Heap → Option ℕ × Heap
alloc grant h =
    if grant h.requests
    then (some h.requests, record { requests = suc h.requests; live = h.requests ∷ h.live })
    else (none, record h { requests = suc h.requests })

unfoldable pub erase : ℕ → List ℕ → List ℕ
erase b [] = []
erase b (x ∷ xs) = let rest = erase b xs in if x == b then xs else x ∷ rest

unfoldable pub free : ℕ → Heap → Heap
free b h = record h { live = erase b h.live }

-- A pointer to bytes in a block of their own, or NULL.
abbrev pub Held : Type 0
Held = Option (ℕ × List ℕ)

unfoldable pub free_held : Held → Heap → Heap
free_held none h = h
free_held (some p) h = free p.0 h

-- xDnsRecord as a copy has it, in its block.
pub record Copy : Type 0 where
  pub block : ℕ
  pub qtype : ℕ
  pub ttl : ℕ
  pub name : Held
  pub rdata : Held
  pub rdlength : ℕ

unfoldable pub records_free : List Copy → Heap → Heap
records_free [] h = h
records_free (c ∷ cs) h = records_free cs (free c.block (free_held c.rdata (free_held c.name h)))

-- The bytes in a block of their own, where there are any.
unfoldable pub duplicated : List ℕ → Option ℕ × Heap → Option Held × Heap
duplicated bytes (none, h) = (none, h)
duplicated bytes (some b, h) = (some (some (b, bytes)), h)

unfoldable pub duplicate : (ℕ → Bool) → Heap → Option (List ℕ) → Option Held × Heap
duplicate grant h none = (some none, h)
duplicate grant h (some bytes) = duplicated bytes (alloc grant h)

abbrev pub first_bytes : ℕ → Option (List ℕ) → Option (List ℕ)
first_bytes n none = none
first_bytes n (some bytes) = some (take n bytes)

-- The data that are copied: no block for none.
abbrev pub data_of : Given → Option (List ℕ)
data_of r = if r.rdlength == 0 then none else first_bytes r.rdlength r.rdata

unfoldable pub with_body : Given → ℕ → Held → Option Held × Heap → Option Copy × Heap
with_body r b name (none, h) = (none, free b (free_held name h))
with_body r b name (some body, h) = (
  some (record {
    block = b;
    qtype = r.qtype;
    ttl = r.ttl;
    name = name;
    rdata = body;
    rdlength = r.rdlength;
  }),
  h,
)

unfoldable pub with_name : (ℕ → Bool) → Given → ℕ → Option Held × Heap → Option Copy × Heap
with_name grant r b (none, h) = (none, free b h)
with_name grant r b (some name, h) = with_body r b name (duplicate grant h (data_of r))

unfoldable pub with_block : (ℕ → Bool) → Given → Option ℕ × Heap → Option Copy × Heap
with_block grant r (none, h) = (none, h)
with_block grant r (some b, h) = with_name grant r b (duplicate grant h r.name)

-- One round of the loop over the records.
unfoldable pub clone_one : (ℕ → Bool) → Given → Heap → Option Copy × Heap
clone_one grant r h = with_block grant r (alloc grant h)

-- On failure the copies made so far are freed.
unfoldable pub link :
    List Copy → (List Copy → Heap → List Copy × Heap) → Option Copy × Heap → List Copy × Heap
link done next (none, h) = ([], records_free done h)
link done next (some c, h) = next (done ++ c ∷ []) h

unfoldable pub clone_loop : (ℕ → Bool) → List Given → List Copy → Heap → List Copy × Heap
clone_loop grant [] done h = (done, h)
clone_loop grant (r ∷ rs) done h =
    link done (λ done' h'. clone_loop grant rs done' h') (clone_one grant r h)

-- dns_records_clone, where the empty list is NULL.
unfoldable pub records_clone : (ℕ → Bool) → List Given → Heap → List Copy × Heap
records_clone grant rs h = clone_loop grant rs [] h
