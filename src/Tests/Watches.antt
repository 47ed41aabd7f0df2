-- ===== src/Tests/Watches.antt =====
-- Witnesses for what is handed on: the poll loop, the watch and the broadcaster.
use k8s_dqlite.Prelude.{ℕ, refl, inl, true, false, none, some, [], ◌∷◌, arith, In}
use k8s_dqlite.Bytes.{codes}
use k8s_dqlite.Events.{Event}
use k8s_dqlite.Sqllog.Poll.{Poller}
use k8s_dqlite.Logstructured.Watch.{relay}
use k8s_dqlite.Logstructured.Watch.Delivery.{join, Rising, relay-Rising}
use k8s_dqlite.Broadcaster.{Sub, Broadcaster, publish}
use k8s_dqlite.Broadcaster.Delivery.{
  publish_all, with_items, publish_all_delivers, Origin, publish_all-Origin,
}
use k8s_dqlite.Tests.{pod}

abbrev at : ℕ → Event
at id = record {
  delete = false;
  create = true;
  kv = record {
    key = pod;
    create_revision = id;
    mod_revision = id;
    value = some (codes "v");
    lease = 0;
  };
  prev_kv = none;
}

-- The poller has seen revision 2; a first try of the driver fails.
abbrev after_two : Poller
after_two = record { last = 2; skip = 0; skip_time = 0; wait_for_more = true }

relay-Rising_example :
    Rising 3 (join (relay 3 5 (at 4 ∷ at 5 ∷ []) ((at 5 ∷ at 6 ∷ []) ∷ (at 7 ∷ []) ∷ [])))
relay-Rising_example =
    relay-Rising 3 5 4 (at 4 ∷ at 5 ∷ []) ((at 5 ∷ at 6 ∷ []) ∷ (at 7 ∷ []) ∷ []) (omega arith)
      (omega arith, (omega arith, tt)) (omega arith, (omega arith, tt))
      (omega arith, (omega arith, (omega arith, tt)))

abbrev reader : Sub ℕ
reader = record { id = 0; buffer = 1 ∷ [] }

abbrev one_reader : Broadcaster ℕ
one_reader = record { running = true; subs = reader ∷ []; made = 1 }

reader_open : In (with_items reader (2 ∷ 3 ∷ [])) (publish_all (2 ∷ 3 ∷ []) one_reader).subs
unfolding publish_all publish
reader_open = inl refl

publish_all_delivers_example :
    In (with_items reader (2 ∷ 3 ∷ [])) (publish_all (2 ∷ 3 ∷ []) one_reader).subs
publish_all_delivers_example =
    publish_all_delivers (2 ∷ 3 ∷ []) one_reader reader (inl refl) (omega arith)

publish_all-Origin_example : Origin (2 ∷ 3 ∷ []) (reader ∷ []) (with_items reader (2 ∷ 3 ∷ []))
publish_all-Origin_example =
    publish_all-Origin (2 ∷ 3 ∷ []) one_reader (with_items reader (2 ∷ 3 ∷ [])) reader_open
