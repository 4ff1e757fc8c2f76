-- ===== src/Publish/Leaks.antt =====
-- `_basic_publish` where the properties cannot be read, or are read with an exception.
use librabbitmq.Base.{ℕ, ◌≡◌, refl, sym, subst, true, Option, none, some, List, ◌∷◌, Top, list_eq}
use librabbitmq.Base.Cmd.{Returns}
use librabbitmq.Py.{PyItems, str, bytes, dict, cons, unicode_encode_error}
use librabbitmq.Py.Text.{codes, ascii_encode}
use librabbitmq.Py.Objects.{empty_array}
use librabbitmq.Py.Held.{maybe_unicode, keep_ascii, xdecref_held, release_array, release_entries}
use librabbitmq.Amqp.Read.{is_key}
use librabbitmq.World.{as_channel, World, alive, channel_pool}
use librabbitmq.World.Open.{IsAlive}
use librabbitmq.Errors.{not_connected}
use librabbitmq.Receive.Callback.{get_item}
use librabbitmq.Synchronous.{opened, named}
use librabbitmq.Publish.{PublishArgs, publish_properties, publish_work, basic_publish_method}
use librabbitmq.Publish.Properties.{text_field, encoded_field, dict_to_basic_properties}
use librabbitmq.Ledger.{IsRestored}
use librabbitmq.Ledger.Publish.{and_one}

-- NULL with an exception, nothing sent but the request for the pool, and one more reference owned.
abbrev pub Leaked : ℕ → World → Option Top → World → Type 0
Leaked channel w r w' =
    (r ≡ none)
    × (w'.py.err ≡ some unicode_encode_error)
    × (w'.trace ≡ channel_pool (as_channel channel) ∷ w.trace)
    × IsRestored (and_one w.py.owned w.py.fresh) w.py.excess w'.py

abbrev at : World → World
at w = record w {
  self = record self { conn = alive; connected = true };
  py = record py { held = empty_array };
}
  where
    open w use {self, py}

abbrev pub with_names : PublishArgs → List ℕ → List ℕ → List ℕ → PyItems → PublishArgs
with_names a es rs cs rest = record a {
  exchange = bytes es;
  routing_key = bytes rs;
  propdict = dict (cons (str (codes "content_type")) (str cs) rest);
}

leaks_at :
    (a : PublishArgs) (es rs cs : List ℕ) (rest : PyItems) (w : World)
    → ascii_encode cs ≡ none
    → Returns
        (Leaked a.channel (at w))
        (basic_publish_method (some (with_names a es rs cs rest)) (at w))
unfolding basic_publish_method opened not_connected publish_work named maybe_unicode
    publish_properties dict_to_basic_properties text_field encoded_field get_item is_key list_eq
    keep_ascii xdecref_held release_array release_entries
leaks_at a es rs cs rest w e = rw (Returns, e) (refl, refl, refl, (λ i. refl, refl, refl))

-- On an open connection and at the start of a call, where the names are bytes objects and the property
-- `content_type` comes first and cannot be encoded: NULL is returned with an exception, nothing is
-- sent, and one reference more is owned than before, that of the property dict.
pub basic_publish_method_leaks :
    (a : PublishArgs) (es rs cs : List ℕ) (rest : PyItems) (w : World)
    → ascii_encode cs ≡ none
    → IsAlive w
    → w.self.connected ≡ true
    → w.py.held ≡ empty_array
    → Returns (Leaked a.channel w) (basic_publish_method (some (with_names a es rs cs rest)) w)
basic_publish_method_leaks a es rs cs rest w e o c h =
    subst
      (λ v.
        Returns (Leaked a.channel v) (basic_publish_method (some (with_names a es rs cs rest)) v))
      (sym same) (leaks_at a es rs cs rest w e)
  where
    same : w ≡ at w
    same = λ t. record w {
      self = record self { conn = o.alive_ t; connected = c t };
      py = record py { held = h t };
    }
      where
        open w use {self, py}
