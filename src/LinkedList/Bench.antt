-- ===== src/LinkedList/Bench.antt =====
-- A list in the pool of `Memory.Bench`, on which the tests run.
use dv1580_a.Prelude.{refl, [], ◌∷◌}
use dv1580_a.Machine.{Ptr, null}
use dv1580_a.Memory.Bench.{unused_manager, bench, three, bench_three, three-IsReady}
use dv1580_a.LinkedList.{Node, Program}
use dv1580_a.LinkedList.Linked.{Items, Linked, nil, cons, node}
use dv1580_a.LinkedList.Ready.{IsList}

-- A node of 24 bytes in the last block of `three`.
abbrev pub one_item : Items
one_item = (4136, 7) ∷ []

abbrev pub bench_nodes : Ptr → Node
bench_nodes a = node 7 null

abbrev pub bench_list : Program
bench_list = record {
  manager = bench_three;
  nodes = bench_nodes;
  list_mutex = 0;
  head = 4136;
  output = [];
}

pub one_item-Linked : Linked bench_nodes 4136 one_item
one_item-Linked = cons refl refl refl nil

pub bench_list-IsList : IsList bench 24 4096 4160 bench_list three one_item
bench_list-IsList = record {
  idle = refl;
  manager_ready = three-IsReady;
  linked = one_item-Linked;
  owned = (refl, tt);
}

-- A program that has called nothing, on an empty heap.
abbrev pub empty_program : Program
empty_program = record bench_list { manager = unused_manager; head = null }
