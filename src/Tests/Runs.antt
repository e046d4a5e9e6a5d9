-- ===== src/Tests/Runs.antt =====
-- Runs of the handlers that reach what they are for.
use algorand.Prelude.{
  ℕ, zero, suc, ◌+◌, ◌≡◌, ◌≤◌, true, false, Bool, ◌<◌, ◌^◌, ◌-◌, ◌⊎◌, refl, sym, ◌∙◌, List, [], ◌∷◌,
  text_eq, some, arith,
}
use algorand.Prelude.Counting.{count}
use algorand.System.Responses.{collect, count_responses, same_entries, validate, accepted_store}
use algorand.System.Responses.Quorum.{responded, validate-quorum}
use algorand.System.Answers.{
  Awaiting, rcok, abort, verdicts, receive_all, waiting_for_response, receive_all-outcome,
}
use algorand.Prelude.Int.{pos}
use algorand.Transport.Messages.{ClientResponseMessage, IndexedMessage}
use algorand.System.Node.{Config, Node}
use algorand.System.Execute.{process_execute_msg, after_batch}
use algorand.System.Execute.Order.{batch_run, process_execute_msg-batch_run, after_batch-OnlySends}
use algorand.System.Prepare.{prepared, queries_logged, preprepares_logged}
use algorand.System.Prepare.Quorum.{IsLogged}
use algorand.System.Prepare.Progress.{Agree, prepared-reached}
use algorand.System.Commit.{committed_local, find_prep}
use algorand.System.Commit.Quorum.{confirms}
use algorand.System.Commit.Progress.{CommitsAgree, committed_local-reached}
use algorand.System.Execute.Machine.{Replica, Runs}
use algorand.System.Execute.Replication.{
  Implements, ReleasesOne, execute_all, execute_all-Runs, execute_all-agree,
}
use algorand.Tests.Setup.{platform, config}
use algorand.Tests.Node.{base, txn, node, ready, indexed, batch}

-- batches of five
abbrev five : Config
five = record config { g_batch_size = 5 }

abbrev start : Replica platform
start = record { next = 2; database = [] }

keeps : ReleasesOne platform five
keeps j k table h = refl

node-Implements : Implements platform five txn node start
node-Implements = record { next = refl; database = refl; txn_table = λ k h. refl }

-- transactions 2 and 3 in one batch, and 4 and 5 in another, or each pair cut differently
abbrev message : ℕ → ℕ → IndexedMessage ℕ
message index end_index = record batch { index = index; end_index = end_index }

-- the node when a batch is done
abbrev done : IndexedMessage ℕ → Node platform → Node platform
done m n = after_batch platform five (m.end_index + 1) (batch_run platform five m n)

abbrev two_batches : List (IndexedMessage ℕ)
two_batches = message 2 2 ∷ message 4 4 ∷ []

abbrev one_batch : List (IndexedMessage ℕ)
one_batch = message 2 4 ∷ []

first_run : process_execute_msg platform five (message 2 2) node ≡ some (done (message 2 2) node)
first_run =
    process_execute_msg-batch_run platform five (message 2 2) node (omega arith) (omega arith) refl

turn : (m : IndexedMessage ℕ) (n : Node platform) → (done m n).g_next_index ≡ m.end_index + 2
turn m n = (after_batch-OnlySends platform five (m.end_index + 1) (batch_run platform five m n)).0

second_run :
    process_execute_msg platform five (message 4 4) (done (message 2 2) node)
    ≡ some (done (message 4 4) (done (message 2 2) node))
second_run =
    process_execute_msg-batch_run platform five (message 4 4) (done (message 2 2) node)
      (omega arith) (omega arith) (turn (message 2 2) node)

two_run :
    execute_all platform five two_batches node ≡ some (done (message 4 4) (done (message 2 2) node))
unfolding execute_all
two_run = rw (first_run, second_run) refl

one_run : execute_all platform five one_batch node ≡ some (done (message 2 4) node)
unfolding execute_all
one_run =
    let run =
      process_execute_msg-batch_run platform five (message 2 4) node (omega arith) (omega arith)
        refl in
    rw run refl

execute_all-Runs_example :
    (r' : Replica platform) × Runs platform txn start r'
    × Implements platform five txn (done (message 2 4) node) r'
execute_all-Runs_example =
    execute_all-Runs platform five keeps txn one_batch node (done (message 2 4) node) start
      (omega arith) (omega arith) (omega arith, omega arith, tt) node-Implements one_run

same_turn :
    (done (message 4 4) (done (message 2 2) node)).g_next_index
    ≡ (done (message 2 4) node).g_next_index
same_turn = turn (message 4 4) (done (message 2 2) node) ∙ sym (turn (message 2 4) node)

execute_all-agree_example :
    (done (message 4 4) (done (message 2 2) node)).database ≡ (done (message 2 4) node).database
execute_all-agree_example =
    execute_all-agree platform five keeps txn two_batches one_batch node node
      (done (message 4 4) (done (message 2 2) node)) (done (message 2 4) node) start (omega arith)
      (omega arith) (omega arith, omega arith, (omega arith, omega arith, tt))
      (omega arith, omega arith, tt) node-Implements node-Implements two_run one_run same_turn

-- the prepare messages of the row are about transaction 3, but for the first
rows-Agree : Agree platform config node 3 2 3
rows-Agree zero h e = absurd (omega arith)
rows-Agree (suc i) h e = refl

batch-IsLogged : IsLogged platform config node 3 2 3
unfolding queries_logged preprepares_logged
batch-IsLogged = (refl, refl)

prepared-reached_example :
    (n' : Node platform) × (prepared platform config 3 node ≡ some (true, n'))
    × ((n'.txn_table 3).prepared ≡ true)
prepared-reached_example =
    prepared-reached platform config node 3 2 3 rows-Agree batch-IsLogged (omega arith)
      (omega arith)

rows-CommitsAgree : CommitsAgree platform config (indexed 3 2) ready
unfolding find_prep text_eq
rows-CommitsAgree zero h e = refl
rows-CommitsAgree (suc i) h e = refl

commits_enough : 3 ≤ count (confirms platform config (indexed 3 2) ready) 4 0
unfolding find_prep text_eq
commits_enough = omega arith

committed_local-reached_example :
    (n' : Node platform) × (committed_local platform config (indexed 3 2) ready ≡ some (true, n'))
    × ((n'.txn_table 3).committed_local ≡ true)
committed_local-reached_example =
    committed_local-reached platform config (indexed 3 2) ready refl rows-CommitsAgree
      commits_enough

abbrev response : ℕ → ℕ → ClientResponseMessage ℕ
response txn_id node = record {
  base = record (base txn_id) { return_node_id = node };
  index = 2 ∷ 3 ∷ [];
  client_ts = 7 ∷ 7 ∷ [];
  view = 0;
}

-- two nodes have responded
abbrev responses : ℕ → ℕ → ClientResponseMessage ℕ
responses row zero = response 3 0
responses row (suc zero) = response 3 1
responses row (suc (suc i)) = response 9 i

-- the row of the batch when it is answered
abbrev answered : ℕ → ℕ → ClientResponseMessage ℕ
answered = accepted_store platform config (response 3 2) responses

two_responded : count_responses platform config responses (response 3 2) 4 0 0 ≡ some 2
unfolding count_responses same_entries
two_responded = refl

accepts : validate platform config (response 3 2) responses ≡ some (true, answered)
unfolding validate
accepts = rw two_responded refl

validate-quorum_example :
    ((true ≡ true)
      × (2 ≤ count (responded platform config responses (response 3 2)) 4 0)
      × ((i : ℕ) → i < 4 → (answered 3 i).txn_id ≡ 2 ^ 64 - 1))
    ⊎ ((true ≡ false)
        × (count (responded platform config responses (response 3 2)) 4 0 < 2)
        × (answered ≡ collect platform config (response 3 2) responses))
validate-quorum_example =
    validate-quorum platform config (response 3 2) responses answered true accepts

-- one transaction of two is aborted, and a third answer is awaited
abbrev answers : List Bool
answers = true ∷ false ∷ []

receive_all-outcome_example :
    (s : Awaiting) × (receive_all (verdicts answers) (record { rsp_cnt = pos 3; rc = rcok })
      ≡ some s)
    × (s.rc ≡ abort)
    × (waiting_for_response s ≡ true)
receive_all-outcome_example = receive_all-outcome answers 1
