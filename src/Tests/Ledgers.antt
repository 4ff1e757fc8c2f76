-- ===== src/Tests/Ledgers.antt =====
-- The references of methods on concrete runs: a refused name, and an answer that is an error.
use librabbitmq.Base.{◌≡◌, ◌⊎◌, refl, none, some, [], ◌∷◌, ℕ}
use librabbitmq.Base.Int.{pos, negsuc}
use librabbitmq.Base.Cmd.{Ensures}
use librabbitmq.Py.{PyVal, str, int, dict, nil, cons}
use librabbitmq.World.{World, missing}
use librabbitmq.Queue.{
  BindArgs, DeclareArgs, PurgeArgs, ExchangeArgs, queue_bind_method, queue_unbind_method,
  queue_declare_method, queue_delete_method, queue_purge_method, exchange_declare_method,
  exchange_delete_method,
}
use librabbitmq.Consumer.{ConsumeArgs, basic_consume_method, basic_cancel_method}
use librabbitmq.Publish.{PublishArgs, basic_publish_method}
use librabbitmq.Ledger.{IsRestored, HasNoList, HaveNoList}
use librabbitmq.Ledger.Methods.{
  IsClear, queue_methods_restored, exchange_methods_restored, consumer_methods_restored,
}
use librabbitmq.Ledger.Publish.{and_one, basic_publish_method-IsRestored}
use librabbitmq.Tests.{open_world}

-- {"k": "é", "n": -1}
abbrev table : PyVal
table = dict (cons (str (107 ∷ [])) (str (233 ∷ [])) (cons (str (110 ∷ [])) (int (negsuc 0)) nil))

table-HasNoList : HasNoList table
unfolding HasNoList HaveNoList
table-HasNoList = (tt, (tt, tt))

abbrev answers : World
answers = open_world (missing ∷ []) [] (pos 0 ∷ [])

abbrev binding : BindArgs
binding = record {
  channel = 1;
  queue = str (113 ∷ []);
  exchange = str (120 ∷ []);
  routing_key = str (107 ∷ []);
  arguments = table;
}

abbrev declaring : DeclareArgs
declaring = record {
  channel = 1;
  queue = str (233 ∷ []);
  passive = 0;
  durable = 1;
  exclusive = 0;
  auto_delete = 0;
  arguments = table;
}

abbrev purging : PurgeArgs
purging = record { channel = 1; queue = str (113 ∷ []); no_wait = 0 }

queue_methods_restored_example :
    Ensures (λ r w'. IsClear answers w') (queue_bind_method (some binding) answers)
    × Ensures (λ r w'. IsClear answers w') (queue_unbind_method (some binding) answers)
    × Ensures (λ r w'. IsClear answers w') (queue_declare_method (some declaring) answers)
    × Ensures (λ r w'. IsClear answers w') (queue_delete_method none answers)
    × Ensures (λ r w'. IsClear answers w') (queue_purge_method (some purging) answers)
queue_methods_restored_example =
    queue_methods_restored answers refl (some binding) (some binding) (some declaring) none
      (some purging) table-HasNoList table-HasNoList table-HasNoList

abbrev exchanging : ExchangeArgs
exchanging = record {
  channel = 1;
  exchange = str (120 ∷ []);
  type = str (116 ∷ []);
  passive = 0;
  durable = 1;
  auto_delete = 0;
  arguments = table;
}

exchange_methods_restored_example :
    Ensures (λ r w'. IsClear answers w') (exchange_declare_method (some exchanging) answers)
    × Ensures
        (λ r w'. IsClear answers w')
        (exchange_delete_method
          (some (record { channel = 1; exchange = str (120 ∷ []); if_unused = 0 }))
          answers)
exchange_methods_restored_example =
    exchange_methods_restored answers refl (some exchanging)
      (some (record { channel = 1; exchange = str (120 ∷ []); if_unused = 0 })) table-HasNoList

abbrev consuming : ConsumeArgs
consuming = record {
  channel = 1;
  queue = str (113 ∷ []);
  consumer_tag = str (116 ∷ []);
  no_local = 0;
  no_ack = 0;
  exclusive = 0;
  arguments = table;
}

consumer_methods_restored_example :
    Ensures (λ r w'. IsClear answers w') (basic_consume_method (some consuming) answers)
    × Ensures
        (λ r w'. IsClear answers w')
        (basic_cancel_method (some (record { channel = 1; consumer_tag = str (116 ∷ []) })) answers)
consumer_methods_restored_example =
    consumer_methods_restored answers refl (some consuming)
      (some (record { channel = 1; consumer_tag = str (116 ∷ []) })) table-HasNoList

-- The headers are the table.
abbrev telling : PublishArgs
telling = record {
  channel = 1;
  body = 104 ∷ 105 ∷ [];
  exchange = str (120 ∷ []);
  routing_key = str (107 ∷ []);
  propdict = dict (cons (str (104 ∷ 101 ∷ [])) table nil);
  mandatory = 0;
  immediate = 0;
}

telling-HasNoList : HasNoList telling.propdict
unfolding HasNoList HaveNoList
telling-HasNoList = ((tt, (tt, tt)), tt)

basic_publish_method-IsRestored_example :
    Ensures
      (λ r w'.
        IsClear answers w'
        ⊎ ((r ≡ none)
            × ((i : ℕ) × IsRestored (and_one answers.py.owned i) answers.py.excess w'.py)))
      (basic_publish_method (some telling) answers)
basic_publish_method-IsRestored_example =
    basic_publish_method-IsRestored (some telling) answers refl telling-HasNoList
