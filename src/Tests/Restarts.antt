-- ===== src/Tests/Restarts.antt =====
-- core/offsets/offsets.go on a concrete database.
use broker_message.Base.{◌≡◌, refl, [], ◌∷◌, arith, if◌then◌else◌, Bytes, bytes_eq, bytes_key}
use broker_message.Storage.Memory.{mem_badger, empty_db}
use broker_message.Storage.Entries.{put, within, has_prefix, bytes_lt}
use broker_message.Offsets.{get, load_from_storage, set}
use broker_message.Offsets.Restart.{Readable, load_from_storage-set}

abbrev ann : Bytes
ann = b'a' ∷ []

abbrev bob : Bytes
bob = b'b' ∷ []

empty_db-Readable : Readable empty_db
unfolding within
empty_db-Readable = tt

set-Readable : Readable (set [] empty_db ann 7).1
unfolding within set put has_prefix bytes_lt
set-Readable = (λ h. cc, tt)

load_from_storage-set_example :
    get (load_from_storage (set [] empty_db ann 7).1).0 bob
    ≡ (if bytes_eq ann bob then 7 else get (load_from_storage empty_db).0 bob)
load_from_storage-set_example =
    load_from_storage-set [] empty_db ann bob 7 refl (omega arith) empty_db-Readable set-Readable
