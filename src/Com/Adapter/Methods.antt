-- ===== src/Com/Adapter/Methods.antt =====
-- Which handler a request of a client reaches.
use minimal_autosar_adaptive.Prelude.{
  ℕ, ◌≡◌, refl, false, nat_eq, ◌==◌, beq_refl, arith, Bytes, [], ◌∷◌, ◌++◌, none, some,
  if◌then◌else◌, ◌≢◌,
}
use minimal_autosar_adaptive.Prelude.Table.{
  Table, keys, lookup, insert, lookup-insert, lookup-erase,
}
use minimal_autosar_adaptive.Prelude.Membership.{elem, Distinct}
use minimal_autosar_adaptive.Someip.Binding.{Callback, Binding, Message}
use minimal_autosar_adaptive.Com.Adapter.{
  Key, key_eq, key_beq_iff, Adapter, bucket, next, ensure_rpc_dispatcher, register_method,
  drop_token, unregister_method, rpc_handler_of, Handled, responses_to, dispatch_rpc,
}

-- The key of a message.
abbrev pub key_of : Message → Key
key_of m = record { service = m.service; instance = m.instance; item = m.method }

registered :
    (k : Key) (h : Callback) (a : Adapter) (b : Binding)
    → (register_method k h a b).0.rpc ≡ insert k (insert (next a) h (bucket (lookup k a.rpc))) a.rpc
unfolding register_method ensure_rpc_dispatcher
registered k h a b = ground arith

-- The answers to a request depend on the handlers of its key alone.
dispatch_rpc_local :
    (handlers : ℕ → Bytes → Handled) (m : Message) (a c : Adapter)
    → rpc_handler_of (key_of m) c ≡ rpc_handler_of (key_of m) a
    → dispatch_rpc handlers m c ≡ dispatch_rpc handlers m a
unfolding dispatch_rpc
dispatch_rpc_local handlers m a c e = ground arith

-- A method that had no handler is answered by the one that is registered: with its responses, in
-- order, and, if it throws, with an empty response to a null pointer in place of the request.
pub dispatch_rpc-register_method :
    (handlers : ℕ → Bytes → Handled) (m : Message) (h : ℕ) (a : Adapter) (b : Binding)
    → lookup (key_of m) a.rpc ≡ none
    → dispatch_rpc handlers m (register_method (key_of m) (some h) a b).0
      ≡ responses_to m (handlers h m.payload).responses
        ++ (if (handlers h m.payload).throws then (none, []) ∷ [] else [])
unfolding dispatch_rpc
dispatch_rpc-register_method handlers m h a b e = ground (arith, here)
  where
    here : rpc_handler_of (key_of m) (register_method (key_of m) (some h) a b).0 ≡ some h
    here =
        unfold rpc_handler_of insert in rw (registered, e, lookup-insert, beq_refl (key_of m)) refl

-- A registration changes no answer for another method.
pub dispatch_rpc-register_method_ne :
    (handlers : ℕ → Bytes → Handled) (m : Message) (k : Key) (h : Callback) (a : Adapter)
    (b : Binding)
    → k ≢ key_of m
    → dispatch_rpc handlers m (register_method k h a b).0 ≡ dispatch_rpc handlers m a
dispatch_rpc-register_method_ne handlers m k h a b ne =
    dispatch_rpc_local handlers m a (register_method k h a b).0 same
  where
    same : rpc_handler_of (key_of m) (register_method k h a b).0 ≡ rpc_handler_of (key_of m) a
    same =
        unfold rpc_handler_of in
        rw registered (
          ground (
            arith,
            lookup-insert k (key_of m) (insert (next a) h (bucket (lookup k a.rpc))) a.rpc,
            key_beq_iff k (key_of m),
          ))

dropped_absent :
    (t : ℕ) (k : Key) (rpc : Table Key (Table ℕ Callback))
    → elem k (keys rpc) ≡ false
    → lookup k (drop_token t rpc) ≡ none
unfolding drop_token lookup
dropped_absent t k [] h = refl
dropped_absent t k ((j, handlers) ∷ rpc) h = ground (arith, dropped_absent t k rpc)

drop_token-lookup :
    (t u : ℕ) (k : Key) (rpc : Table Key (Table ℕ Callback))
    → Distinct (keys rpc)
    → lookup u (bucket (lookup k (drop_token t rpc)))
      ≡ (if t == u then none else lookup u (bucket (lookup k rpc)))
unfolding drop_token lookup
drop_token-lookup t u k [] d = ground arith
drop_token-lookup t u k ((j, handlers) ∷ rpc) d = ground (
  arith,
  drop_token-lookup t u k rpc d.1,
  lookup-erase t u handlers,
  dropped_absent t k rpc,
  key_beq_iff j k,
)

-- `unregister_method` takes the handler of the token away from every method, and no other.
pub unregister_method_lem :
    (t u : ℕ) (k : Key) (a : Adapter)
    → Distinct (keys a.rpc)
    → lookup u (bucket (lookup k (unregister_method t a).rpc))
      ≡ (if t == u then none else lookup u (bucket (lookup k a.rpc)))
unfolding unregister_method
unregister_method_lem t u k a d = drop_token-lookup t u k a.rpc d
