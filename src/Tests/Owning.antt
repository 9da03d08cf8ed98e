-- ===== src/Tests/Owning.antt =====
-- core/cluster_fs.go: a node takes a directory over from another one.
use akavefs.Prelude.{ℕ, ◌≡◌, ◌≢◌, refl, true, [], ◌∷◌, arith}
use akavefs.Flushing.{CacheState}
use akavefs.Ownership.{
  Node, StolenInode, Answer, Request, Work, worked, handle, try_yield, apply_answer,
}
use akavefs.Ownership.System.{
  Pending, System, ClusterStep, IsStart, Reached, set_slot, exchange, receive,
}
use akavefs.Ownership.Exclusive.{IsExclusive, Reached-IsExclusive_owner}
use akavefs.Ownership.Carried.{contents_of, contents_in}
use akavefs.Ownership.Transfer.{last_contents, last_contents-held}

-- The owner is node 1.
abbrev new_node : Node
new_node = record {
  owner_term = 0;
  owner = 1;
  ready_owner = true;
  cache_state = CacheState.cached;
  file_handles = 0;
  children = [];
  deleted_children = [];
  refcnt = 0;
  size = 0;
}

abbrev at_start : System
at_start i = record { node = new_node; pending = Pending.idle }

at_start-IsStart : IsStart true at_start
at_start-IsStart = record {
  root = 1;
  owner_term = 0;
  names = λ i. refl;
  terms = λ i. refl;
  no_request = λ i. refl;
  ready = refl;
  empty = λ i h. refl;
  no_children = λ h. refl;
}

abbrev listed : Work
listed = record {
  new_state = CacheState.cached;
  new_handles = 0;
  new_children = 7 ∷ 8 ∷ [];
  new_deleted = [];
  new_refcnt = 2;
  new_size = 4096;
}

abbrev node_one : ℕ
node_one = 1

node_one-other : node_one ≢ 2
node_one-other e = absurd (omega arith)

abbrev after_listing : System
after_listing =
    set_slot at_start 1 record { node = worked true new_node listed; pending = Pending.idle }

abbrev after_ask : System
after_ask =
    set_slot after_listing 2
      record { node = new_node; pending = Pending.asking 1 Request.try_steal }

-- Node 1 lists the directory, and node 2 asks for it, gets it and takes it over.
after_ask-Reached : Reached true after_ask
after_ask-Reached =
    Reached.next
      (Reached.next (Reached.start at_start-IsStart)
        (ClusterStep.work {s = at_start} 1 listed refl refl))
      (ClusterStep.ask {s = after_listing} 2 Request.try_steal refl node_one-other)

abbrev on_its_way : StolenInode
on_its_way = record {
  term = 1;
  stolen_size = 4096;
  stolen_refcnt = 2;
  stolen_children = 7 ∷ 8 ∷ [];
}

abbrev after_take : System
after_take =
    receive true (exchange true after_ask 2 1 Request.try_steal) 2 (Answer.given on_its_way)

after_take-Reached : Reached true after_take
unfolding handle try_yield
after_take-Reached =
    Reached.next
      (Reached.next after_ask-Reached
        (ClusterStep.serve {s = after_ask} 2 1 Request.try_steal refl))
      (ClusterStep.take_answer {s = exchange true after_ask 2 1 Request.try_steal} 2
        (Answer.given on_its_way) refl)

Reached-IsExclusive_owner_example : IsExclusive after_take
Reached-IsExclusive_owner_example = Reached-IsExclusive_owner true after_take after_take-Reached

last_contents-held_example :
    ((after_take 2).node.owner ≡ 2
      → contents_of (after_take 2).node ≡ last_contents after_take-Reached)
    × ((st : StolenInode)
        → (after_take 2).pending ≡ Pending.answered (Answer.given st)
        → contents_in st ≡ last_contents after_take-Reached)
    × ((after_take 2).node.owner ≢ 2 → (after_take 2).node.children ≡ [])
last_contents-held_example = last_contents-held after_take-Reached 2

after_take-owner : (after_take 2).node.owner ≡ 2
unfolding apply_answer
after_take-owner = refl

after_take-children : (after_take 2).node.children ≡ 7 ∷ 8 ∷ []
unfolding apply_answer
after_take-children = refl
