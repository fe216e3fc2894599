-- ===== src/Examples/Copies.antt =====
-- The theorems on deep copies, at a small agent and a list of it.
use tailpost.Base.{ℕ, [], ◌∷◌, none, some, ◌≡◌, ◌<◌, List, length, String, arith}
use tailpost.Base.Int.{pos}
use tailpost.Operator.Copies.{
  Source, Cell, number, selector, sources, agents, Agent, AgentList, put, at, deep_copy,
  deep_copy_list,
}
use tailpost.Operator.Copies.Items.{view_items, deep_copy_list_apart}
use tailpost.Operator.Copies.Apart.{view, IsStored, deep_copy_apart}

abbrev source : Source
source = record {
  type = "pod";
  path = "";
  container_name = "";
  pod_selector = some 1;
  namespace_selector = none;
}

abbrev store : List (Cell String)
store = number (pos 3) ∷ selector "app=web" ∷ sources (source ∷ []) ∷ []

abbrev agent : Agent
agent = record {
  spec = record {
    replicas = some 0;
    image = "";
    image_pull_policy = "";
    service_account = "";
    log_sources = some 2;
    server_url = "http://logs";
    batch_size = none;
    flush_interval = "";
    resources = record {
      limits = record { cpu = ""; memory = "" };
      requests = record { cpu = ""; memory = "" };
    };
  };
  status = record { conditions = none; available_replicas = pos 0; last_update_time = 0 };
}

agent-IsStored : IsStored store agent
agent-IsStored = record {
  replicas = omega arith;
  batch_size = tt;
  log_sources = omega arith;
  array = ((omega arith, tt), tt);
  conditions = tt;
}

deep_copy_apart_example :
    (view (deep_copy agent store).1 (deep_copy agent store).0 ≡ view store agent)
    × ((n : ℕ) (x : Cell String)
        → n < length store
        → view (put n x (deep_copy agent store).1) (deep_copy agent store).0 ≡ view store agent)
deep_copy_apart_example = deep_copy_apart agent store agent-IsStored

-- The same with the array of a list that holds the agent twice.
abbrev list_store : List (Cell String)
list_store =
    number (pos 3) ∷ selector "app=web" ∷ sources (source ∷ []) ∷ agents (agent ∷ agent ∷ []) ∷ []

abbrev list : AgentList
list = record { items = some 3 }

again-IsStored : IsStored list_store agent
again-IsStored = record {
  replicas = omega arith;
  batch_size = tt;
  log_sources = omega arith;
  array = ((omega arith, tt), tt);
  conditions = tt;
}

deep_copy_list_apart_example :
    let c = deep_copy_list list list_store in
    (view_items c.1 (at c.1 c.0.items) ≡ view_items list_store (at list_store list.items))
    × ((n : ℕ) (x : Cell String)
        → n < length list_store
        → view_items (put n x c.1) (at (put n x c.1) c.0.items)
          ≡ view_items list_store (at list_store list.items))
deep_copy_list_apart_example =
    deep_copy_list_apart list list_store (again-IsStored, (again-IsStored, tt))
