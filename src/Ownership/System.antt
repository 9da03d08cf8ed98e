-- ===== src/Ownership/System.antt =====
-- core/cluster_fs.go: the nodes of a cluster and the requests and answers between them, step by step.
use akavefs.Prelude.{ℕ, ◌≡◌, ◌≢◌, Bool, true, false, [], ◌==◌, if◌then◌else◌}
use akavefs.Ownership.{Node, Answer, Request, handle, apply_answer, Work, worked}

-- What a node waits for: nothing, the answer of another node, or an answer that is on its way.
pub data Pending : Type 0 where
  idle : Pending
  asking : ℕ → Request → Pending
  answered : Answer → Pending

pub record Slot : Type 0 where
  pub node : Node
  pub pending : Pending

abbrev pub System : Type 0
System = ℕ → Slot

abbrev pub set_slot : System → ℕ → Slot → System
set_slot s n v i = if i == n then v else s i

-- The node that is asked keeps what the handler leaves, and the other node's answer is on its way.
abbrev pub exchange : Bool → System → ℕ → ℕ → Request → System
exchange is_dir s m n request =
    let a = handle is_dir n (s n).node m request in
    set_slot (set_slot s n record { node = a.kept; pending = (s n).pending }) m
      record { node = (s m).node; pending = Pending.answered a.answer }

abbrev pub receive : Bool → System → ℕ → Answer → System
receive is_dir s m answer =
    set_slot s m record { node = apply_answer is_dir m (s m).node answer; pending = Pending.idle }

pub data ClusterStep (is_dir : Bool) : System → System → Type 0 where
  ask :
      {s : System}
      → (m : ℕ) → (request : Request) → (s m).pending ≡ Pending.idle
      → (s m).node.owner ≢ m
      → ClusterStep is_dir s (
          set_slot s m
            record { node = (s m).node; pending = Pending.asking (s m).node.owner request })
  serve :
      {s : System}
      → (m n : ℕ) → (request : Request) → (s m).pending ≡ Pending.asking n request
      → ClusterStep is_dir s (exchange is_dir s m n request)
  take_answer :
      {s : System}
      → (m : ℕ) → (answer : Answer) → (s m).pending ≡ Pending.answered answer
      → ClusterStep is_dir s (receive is_dir s m answer)
  fail :
      {s : System}
      → (m n : ℕ) → (request : Request) → (s m).pending ≡ Pending.asking n request
      → ClusterStep is_dir s (set_slot s m record { node = (s m).node; pending = Pending.idle })
  work :
      {s : System}
      → (n : ℕ) → (w : Work) → (s n).node.owner ≡ n
      → (s n).node.ready_owner ≡ true
      → ClusterStep is_dir s
          (set_slot s n record { node = worked is_dir (s n).node w; pending = (s n).pending })

-- Every node names one owner, which is ready, and no other node has anything of the inode.
pub record IsStart (is_dir : Bool) (s : System) : Type 0 where
  pub root : ℕ
  pub owner_term : ℕ
  pub names : (i : ℕ) → (s i).node.owner ≡ root
  pub terms : (i : ℕ) → (s i).node.owner_term ≡ owner_term
  pub no_request : (i : ℕ) → (s i).pending ≡ Pending.idle
  pub ready : (s root).node.ready_owner ≡ true
  pub empty : (i : ℕ) → i ≢ root → (s i).node.children ≡ []
  pub no_children : is_dir ≡ false → (s root).node.children ≡ []

pub data Reached (is_dir : Bool) : System → Type 0 where
  start : {s : System} → IsStart is_dir s → Reached is_dir s
  next : {s t : System} → Reached is_dir s → ClusterStep is_dir s t → Reached is_dir t
