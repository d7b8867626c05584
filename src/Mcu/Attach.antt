-- ===== src/Mcu/Attach.antt =====
-- Which plugins are attached to a client, over what its websocket delivers.
use kwmbridge.Base.{
  ℕ, ◌≡◌, refl, inl, inr, true, false, Option, none, some, List, [], ◌∷◌, ◌++◌, arith,
  if◌then◌else◌, Option-cases, Text, codes, text_eq, text_eq_iff, is_some, lookup, insert,
  lookup-insert, lookup-erase, text_key, All, Bool,
}
use kwmbridge.Utils.{Url, as_websocket_url}
use kwmbridge.Mcu.Client.{
  Container, AttachedRecord, Client, Outside, done, at_path, created, dialled, plugin_closed, Read,
  text, plugin_end, attach_plugin, attach, handle_websocket_message, dispatch, pump_step, read_pump,
  plugin_ended,
}

-- The three words that a message type is compared with are different.
different_words :
    (text_eq (codes "detach") (codes "attach") ≡ false)
    × (text_eq (codes "detach") (codes "detatch") ≡ false)
unfolding text_eq
different_words = (refl, refl)

-- What is attached to a transaction.
abbrev pub at : Text → Client → Option AttachedRecord
at t c = lookup t c.attached

-- The read is the end of a plugin that came with a message of the transaction.
abbrev pub ends_at : Text → Read → Bool
ends_at t (plugin_end message plugin) = text_eq message.transaction t
ends_at t _ = false

-- The end of a plugin leaves what is attached to other transactions.
pub plugin_ended-keeps :
    (t : Text) (message : Container) (plugin : ℕ) (c : Client)
    → text_eq message.transaction t ≡ false
    → at t (plugin_ended message plugin c) ≡ at t c
unfolding plugin_ended
plugin_ended-keeps t message plugin c other =
    ground (arith, lookup-erase message.transaction t c.attached)

module _ (w : Outside) where
  dispatch_other :
      (message : Container) (c : Client)
      → text_eq message.message_type (codes "attach") ≡ false
      → dispatch w message c ≡ (done, c)
  unfolding dispatch handle_websocket_message
  dispatch_other message c other =
      ground (arith, text_eq_iff message.message_type (codes "detach"), different_words.1, other)

  dispatch-attach :
      (message : Container) (c : Client)
      → text_eq message.message_type (codes "attach") ≡ true
      → dispatch w message c ≡ attach w message c
  unfolding dispatch handle_websocket_message
  dispatch-attach message c own = ground (arith, own)

  -- A message to detach a plugin does nothing: readPump lets the type "detach" through, and the
  -- handler's case has another spelling.
  pub detach_ignored :
      (message : Container) (c : Client)
      → message.message_type ≡ codes "detach"
      → pump_step w (text (some message)) c ≡ (none, c)
  unfolding pump_step
  detach_ignored message c h =
      let other : text_eq message.message_type (codes "attach") ≡ false = rw h different_words.0 in
      ground (arith, dispatch_other message c other)

  attach-keeps :
      (message : Container) (t : Text) (c : Client)
      → is_some (at t c) ≡ true
      → is_some (at t (attach w message c).1) ≡ true
  unfolding attach attach_plugin
  attach-keeps message t c h = elim (Option-cases w.factory) [
    | inl none' ↦ ground arith
    | inr (factory, has) ↦ elim (Option-cases (factory message)) [
      | inl refused ↦ ground arith
      | inr (plugin, made) ↦
          let r : AttachedRecord = record { when = w.now; plugin = plugin; message = message } in
          ground (arith, lookup-insert message.transaction t r c.attached)
    ]
  ]

  pump_step-keeps :
      (r : Read) (t : Text) (c : Client)
      → ends_at t r ≡ false
      → is_some (at t c) ≡ true
      → is_some (at t (pump_step w r c).1) ≡ true
  unfolding pump_step
  pump_step-keeps (plugin_end message plugin) t c other h =
      ground (arith, plugin_ended-keeps t message plugin c, other)
  pump_step-keeps (text (some message)) t c other h =
      ground (arith, dispatch-attach message c, dispatch_other message c, attach-keeps message t c)
  pump_step-keeps _ t c other h = h

  -- No message of the websocket takes a plugin off a transaction: whatever readPump receives, a
  -- transaction to which a plugin is attached has one afterwards, unless the goroutine of a plugin
  -- that was attached to the transaction ends.
  pub read_pump-keeps :
      (reads : List Read) (t : Text) (c : Client)
      → All (λ (r : Read). ends_at t r ≡ false) reads
      → is_some (at t c) ≡ true
      → is_some (at t (read_pump w reads c).1) ≡ true
  unfolding read_pump
  read_pump-keeps [] t c others h = h
  read_pump-keeps (r ∷ reads) t c (other, others) h =
      let kept = pump_step-keeps r t c other h in
      ground (arith, kept, read_pump-keeps reads t (pump_step w r c).1 others kept)

  -- A client that can be reached, and a factory that makes the plugin for the message.
  abbrev pub Ready : Url → Container → ℕ → Client → Type 0
  Ready base message plugin c =
      (factory : Container → Option ℕ) × (w.factory ≡ some factory)
      × (factory message ≡ some plugin)
      × (as_websocket_url w.parse c.base_uri ≡ some base)
      × ((u : Url) → w.dial u ≡ true)

  attach-Ready :
      (base : Url) (message : Container) (plugin : ℕ) (c : Client)
      → Ready base message plugin c
      → attach w message c ≡ (
        done,
        record c {
          log =
              (c.log ++ (dialled (at_path (codes "/websocket/" ++ message.transaction) base) ∷ []))
              ++ (created plugin ∷ []);
          attached =
              insert message.transaction
                (record { when = w.now; plugin = plugin; message = message })
                c.attached;
        },
      )
  unfolding attach attach_plugin
  attach-Ready base message plugin c (factory, has, made, parsed, dials) =
      ground (
        arith,
        has,
        made,
        parsed,
        dials (at_path (codes "/websocket/" ++ message.transaction) base),
      )

  -- A plugin that ends is closed after it was created, and its transaction is free again; the other
  -- transactions keep what is attached to them.
  pub attach-plugin_ended :
      (base : Url) (message : Container) (plugin : ℕ) (t : Text) (c : Client)
      → Ready base message plugin c
      → let c' = plugin_ended message plugin (attach w message c).1 in
        (at t c' ≡ (if text_eq message.transaction t then none else at t c))
        × (c'.log
            ≡ ((c.log ++ (dialled (at_path (codes "/websocket/" ++ message.transaction) base) ∷ []))
                ++ (created plugin ∷ []))
              ++ (plugin_closed plugin ∷ []))
  unfolding plugin_ended
  attach-plugin_ended base message plugin t c h =
      let r : AttachedRecord = record { when = w.now; plugin = plugin; message = message } in
      ground (
        arith,
        attach-Ready base message plugin c h,
        lookup-insert message.transaction t r c.attached,
        lookup-erase message.transaction t (insert message.transaction r c.attached),
      )
