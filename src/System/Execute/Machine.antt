-- ===== src/System/Execute/Machine.antt =====
-- What the execution of batches implements: a machine that runs one transaction after the other.
use algorand.Prelude.{ℕ, ◌+◌, ◌≡◌, ◌≤◌, arith, refl}
use algorand.System.Node.{Platform, TxnManager}

-- the machine: the number of the next transaction, and the database
pub record Replica (P : Platform) : Type 0 where
  pub next : ℕ
  pub database : P.Database

module _ (P : Platform) where
  open P.D use {Double}
  open P use {Request}

  -- the machine runs the next transaction of the table
  pub data Runs (table : ℕ → TxnManager Double Request) : Replica P → Replica P → Type 0 where
    stay : {r : Replica P} → Runs table r r
    run :
        {r r' : Replica P}
        → Runs table
            (record { next = r.next + 1; database = P.run_txn (table r.next) r.database })
            r'
        → Runs table r r'

  pub Runs-next :
      (table : ℕ → TxnManager Double Request) {r r' : Replica P}
      → Runs table r r'
      → r.next ≤ r'.next
  Runs-next table stay = ground arith
  Runs-next table (run h) = let le = Runs-next table h in omega arith

  -- Two runs from one state that reach the same number reach the same database.
  pub Runs-unique :
      (table : ℕ → TxnManager Double Request) {r a b : Replica P}
      → Runs table r a
      → Runs table r b
      → a.next ≡ b.next
      → a.database ≡ b.database
  Runs-unique table stay stay e = refl
  Runs-unique table stay (run h) e = let le = Runs-next table h in absurd (omega arith)
  Runs-unique table (run g) stay e = let le = Runs-next table g in absurd (omega arith)
  Runs-unique table (run g) (run h) e = Runs-unique table g h e

  pub Runs-trans :
      (table : ℕ → TxnManager Double Request) {a b d : Replica P}
      → Runs table a b
      → Runs table b d
      → Runs table a d
  Runs-trans table stay h = h
  Runs-trans table (run g) h = run (Runs-trans table g h)
