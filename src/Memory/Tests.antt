-- ===== src/Memory/Tests.antt =====
-- include/vita/memory: a pool of two blocks.
use vrt_framework.Prelude.{
  ◌+◌, take, drop, ℕ, zero, suc, ◌≡◌, refl, ◌⊎◌, true, false, none, some, [], ◌∷◌, arith, ◌^◌, ◌<◌,
  ◌≤◌, length,
}
use vrt_framework.Core.Error.{
  ◌>>=◌, error, invalid_argument, overflow, capacity_exhausted, done, ok, err,
}
use vrt_framework.Memory.Pool.{
  BufferRequest, Block, ExternalPool, block_at, set_references, acquire,
}
use vrt_framework.Memory.Envelope.{
  bytes, TxStorage, tx_byte_size, tx_append, tx_segment, SegmentRef, Lease, QuotaState, take_quotas,
  RxEnvelope, RetainedRx, fragment, retained_fragment, retain_loop, retain,
}
use vrt_framework.Memory.Envelope.Quotas.{settled, settled-retain}
use vrt_framework.Memory.Envelope.Storage.{Lendable, tx_append_lem}
use vrt_framework.Memory.Envelope.Retain.{retain-fragment}
use vrt_framework.Memory.Pool.Fit.{usable, NoneUsable, NoneBelow, acquire_best}
use vrt_framework.Memory.Pool.Leases.{System, acquires, shares, drops, IsCounted, run}
use vrt_framework.Memory.Pool.Counted.{run-IsCounted}

abbrev block : ℕ → Block
block n = record {
  address = some 4096;
  capacity = n;
  alignment = 4;
  references = 0;
  domain = 0;
  device_address = 0;
}

abbrev pool : ExternalPool
pool = record { has_state = true; blocks = block 64 ∷ block 32 ∷ []; returns = 0 }

abbrev request : BufferRequest
request = record { capacity = 20; alignment = 4; domain = 0; cpu_access = true }

acquire_best_example :
    (NoneUsable request pool.blocks
      × (acquire pool request ≡ (pool, err (error capacity_exhausted))))
    ⊎ ((i : ℕ) × (acquire pool request
          ≡ (set_references pool i 1, ok (record { attached = true; index = i; used = 0 })))
        × (usable request (block_at pool i) ≡ true)
        × NoneBelow request pool.blocks (block_at pool i).capacity)
acquire_best_example = acquire_best pool request refl

abbrev system : System
system = record { pool = pool; leases = [] }

system-IsCounted : (j : ℕ) → IsCounted system j
system-IsCounted zero = record { counted = refl }
system-IsCounted (suc zero) = record { counted = refl }
system-IsCounted (suc (suc j)) = record { counted = refl }

run-IsCounted_example : IsCounted (run system (acquires request ∷ shares 0 ∷ drops 1 ∷ [])) 1
run-IsCounted_example =
    run-IsCounted system (acquires request ∷ shares 0 ∷ drops 1 ∷ []) 1 (omega arith)
      system-IsCounted

abbrev datagram : Lease
datagram = record { live = true; content = some (1 ∷ 2 ∷ 3 ∷ 4 ∷ []); size = 4 }

abbrev segment : ℕ → ℕ → SegmentRef
segment o n = record { lease = 0; offset = o; extent = n }

abbrev received : RxEnvelope
received = record {
  leases = datagram ∷ [];
  payload = segment 0 2 ∷ segment 2 2 ∷ [];
  prologue = none;
  trailer = none;
}

abbrev quota : QuotaState
quota = record { active = 0; limit = 1; enabled = true }

abbrev retained : RetainedRx
retained = record { leases = datagram ∷ []; fragments = segment 0 2 ∷ segment 2 2 ∷ [] }

retain-fragment_example : retained_fragment retained 1 ≡ fragment received 1
unfolding retain take_quotas retain_loop
retain-fragment_example = retain-fragment received false (some quota) (some quota) retained 1 refl

settled-retain_example :
    settled false (retain received false (some quota) (some quota)) ≡ (some quota, some quota)
settled-retain_example =
    settled-retain received false (some quota) (some quota) (omega arith) (omega arith)

abbrev storage : TxStorage
storage = record { leases = datagram ∷ []; segments = segment 0 4 ∷ [] }

abbrev appended : ℕ
appended = 2

tx_append_lem_example :
    (((datagram.live ≡ false) ⊎ (datagram.size < 1 + appended) ⊎ (appended ≡ 0))
      × (tx_append storage datagram 1 appended ≡ (storage, err (error invalid_argument))))
    ⊎ (Lendable datagram 1 appended
        × (length storage.segments ≡ 3)
        × (tx_append storage datagram 1 appended ≡ (storage, err (error capacity_exhausted))))
    ⊎ (Lendable datagram 1 appended
        × (length storage.segments < 3)
        × (2 ^ 64 ≤ tx_byte_size storage.segments + appended)
        × (tx_append storage datagram 1 appended ≡ (storage, err (error overflow))))
    ⊎ (Lendable datagram 1 appended
        × (length storage.segments < 3)
        × (tx_byte_size storage.segments + appended < 2 ^ 64)
        × ((tx_append storage datagram 1 appended).1 ≡ done)
        × (length (tx_append storage datagram 1 appended).0.leases ≡ 2)
        × (length (tx_append storage datagram 1 appended).0.segments ≡ 2)
        × (tx_byte_size (tx_append storage datagram 1 appended).0.segments
            ≡ tx_byte_size storage.segments + appended)
        × (tx_segment (tx_append storage datagram 1 appended).0 1
            ≡ (bytes datagram >>= λ b. ok (take appended (drop 1 b)))))
tx_append_lem_example = tx_append_lem storage datagram 1 appended 1 refl (omega arith)
