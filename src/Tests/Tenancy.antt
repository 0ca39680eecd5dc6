-- ===== src/Tests/Tenancy.antt =====
-- crm-backend/src/core/database/prisma.service.ts at concrete inputs.
use crm_with_blockchain_rag.Base.{All, String, [], none, refl, some, true, ◌∷◌, ◌≡◌, ◌⊎◌}
use crm_with_blockchain_rag.Tenancy.{Operation, Args, read_op, write_op, creates, all_operations}
use crm_with_blockchain_rag.Tenancy.Isolation.{Selects, all_operations_isolates}

abbrev foreign : Args
foreign = record { filter = some "t2"; rows = some "t2" ∷ none ∷ [] }

all_operations_isolates_example :
    let sent =
      all_operations (some (record { tenant_id = some "t1" })) "Lead" Operation.find_many foreign in
    ((read_op Operation.find_many ≡ true) ⊎ (write_op Operation.find_many ≡ true)
      → Selects sent.filter "t1"
      → ◌≡◌ {A = String} "t1" "t1")
    × (creates Operation.find_many ≡ true → All (λ r. r ≡ some "t1") sent.rows)
all_operations_isolates_example =
    all_operations_isolates "t1" "Lead" "t1" Operation.find_many foreign refl refl
