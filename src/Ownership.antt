-- ===== src/Ownership.antt =====
-- core/cluster_fs.go, core/cluster_fs_grpc.go and core/cluster_inode.go: the owner of an inode in a
-- cluster, `trySteal`, `applyStolenInode`, `tryYield`, `route` and the handler
-- `TryStealInodeOwnership`, for one inode at all nodes. A node has one request about the inode
-- outstanding at a time, and an answer that was made arrives.
pub mod System
pub mod Known
pub mod Moves
pub mod Served
pub mod Giving
pub mod Exclusive
pub mod Carried
pub mod Transfer
use akavefs.Prelude.{
  ℕ, zero, suc, ◌+◌, ◌≤◌, ◌<◌, ◌≡◌, ◌≢◌, Bool, true, false, not, ◌&&◌, Option, none, some, List, [],
  ◌∷◌, ltb, ◌==◌, ◌++◌, if◌then◌else◌,
}
use akavefs.Flushing.{CacheState}

-- What a node knows of an inode.
pub record Node : Type 0 where
  pub owner_term : ℕ
  pub owner : ℕ
  pub ready_owner : Bool
  pub cache_state : CacheState
  pub file_handles : ℕ
  pub children : List ℕ
  pub deleted_children : List ℕ
  pub refcnt : ℕ
  pub size : ℕ

-- `pb.StolenInode`
pub record StolenInode : Type 0 where
  pub term : ℕ
  pub stolen_size : ℕ
  pub stolen_refcnt : ℕ
  pub stolen_children : List ℕ

-- `pb.Owner`
pub record Owner : Type 0 where
  pub owner_node_term : ℕ
  pub node_id : ℕ

pub record Yield : Type 0 where
  pub left : Node
  pub stolen : Option StolenInode

abbrev pub is_cached : CacheState → Bool
is_cached CacheState.cached = true
is_cached _ = false

abbrev pub is_none : List ℕ → Bool
is_none [] = true
is_none (_ ∷ _) = false

abbrev pub pb_owner : Node → Owner
pb_owner inode = record { owner_node_term = inode.owner_term; node_id = inode.owner }

abbrev pub apply_owner : Node → Owner → Node
apply_owner inode o =
    if ltb inode.owner_term o.owner_node_term
    then record inode { owner_term = o.owner_node_term; owner = o.node_id }
    else inode

-- The children that a directory has before go first.
abbrev pub apply_stolen_inode : Bool → ℕ → Node → StolenInode → Node
apply_stolen_inode is_dir self inode stolen = record inode {
  children = if is_dir then inode.children ++ stolen.stolen_children else inode.children;
  size = stolen.stolen_size;
  refcnt = stolen.stolen_refcnt;
  owner_term = stolen.term;
  owner = self;
  ready_owner = true;
}

-- The inode given away with some children.
abbrev pub give : Node → ℕ → List ℕ → Yield
give inode new_owner children = record {
  left = record inode {
    owner_term = inode.owner_term + 1;
    owner = new_owner;
    ready_owner = false;
    refcnt = 0;
  };
  stolen = some record {
    term = inode.owner_term + 1;
    stolen_size = inode.size;
    stolen_refcnt = inode.refcnt;
    stolen_children = children;
  };
}

unfoldable pub try_yield : Bool → Node → ℕ → Yield
try_yield is_dir inode new_owner =
    if is_cached inode.cache_state && inode.file_handles == 0
    then if is_dir
      then if is_none inode.deleted_children
        then give (record inode { children = []; deleted_children = [] }) new_owner inode.children
        else record { left = inode; stolen = none }
      else give inode new_owner []
    else record { left = inode; stolen = none }

-- The answers: the owner that the node knows, or the inode, or nothing, or an operation done there.
pub data Answer : Type 0 where
  another : Owner → Answer
  given : StolenInode → Answer
  refused : Answer
  done : Answer

pub data Request : Type 0 where
  try_steal : Request
  execute : Request

pub record Answered : Type 0 where
  pub kept : Node
  pub answer : Answer

abbrev pub yielded : Yield → Answered
yielded y = record {
  kept = y.left;
  answer = elim y.stolen [ none ↦ Answer.refused | some s ↦ Answer.given s ];
}

-- The handler of a request; an operation's own changes are steps of `work`.
unfoldable pub handle : Bool → ℕ → Node → ℕ → Request → Answered
unfolding try_yield
handle is_dir self inode requester request =
    if not (inode.owner == self)
    then record { kept = inode; answer = Answer.another (pb_owner inode) }
    else elim request [
      | Request.try_steal ↦ yielded (try_yield is_dir inode requester)
      | Request.execute ↦ record { kept = inode; answer = Answer.done }
    ]

-- What the node does with an answer.
unfoldable pub apply_answer : Bool → ℕ → Node → Answer → Node
apply_answer is_dir self inode (Answer.another o) = apply_owner inode o
apply_answer is_dir self inode (Answer.given s) = apply_stolen_inode is_dir self inode s
apply_answer is_dir self inode Answer.refused = inode
apply_answer is_dir self inode Answer.done = inode

-- What an operation may leave in the inode.
pub record Work : Type 0 where
  pub new_state : CacheState
  pub new_handles : ℕ
  pub new_children : List ℕ
  pub new_deleted : List ℕ
  pub new_refcnt : ℕ
  pub new_size : ℕ

abbrev pub worked : Bool → Node → Work → Node
worked is_dir inode w = record inode {
  cache_state = w.new_state;
  file_handles = w.new_handles;
  children = if is_dir then w.new_children else [];
  deleted_children = if is_dir then w.new_deleted else [];
  refcnt = w.new_refcnt;
  size = w.new_size;
}
