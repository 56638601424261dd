-- ===== src/Bridge/Admission.antt =====
-- crates/terratranslate-platform-linux/src/wine_bridge.rs: whom the handshake lets in.
use terra_translate.Base.{
  Text, length, Bool, true, false, ◌==◌, Option, none, some, Result, ok, err, out_of_fuel, ◌≡◌, ◌↔◌,
  refl, ap, arith, if◌then◌else◌, >>=-eq-ok, not, subst,
}
use terra_translate.Model.{Bytes}
use terra_translate.Protocol.{BridgeHello, BridgeMessage, HostMessage}
use terra_translate.Bridge.Data.{BridgeServerError}
use terra_translate.Bridge.Validate.{validate_hello, tokens_equal}
use terra_translate.Bridge.Tokens.{tokens_equal_iff}
use terra_translate.Bridge.Handshake.{
  HookBridgeConnection, Refusal, read_message, answer_hello, conclude, greet, accept,
}

passed :
    {A E : Type 0} (same now : Bool) (r : Result E (Unit {0})) (x y z : Option A) (a b : E)
    {answer : Option A}
    → (if not same
        then (let p : Option A × Result E (Unit {0}) = (x, err a) in p)
        else if not now
        then (y, err b)
        else elim r [
          | ok _ ↦ (z, ok tt)
          | err e ↦ (none, err e)
          | out_of_fuel ↦ (none, out_of_fuel)
        ])
      ≡ (answer, ok tt)
    → (same ≡ true) × (now ≡ true) × (r ≡ ok tt) × (answer ≡ z)
passed false now r x y z a b e = cc
passed true false r x y z a b e = cc
passed true true (ok u) x y z a b e = (refl, refl, refl, ground arith)
passed true true (err u) x y z a b e = cc
passed true true out_of_fuel x y z a b e = cc

module _ (bridge_to_vec : BridgeMessage → Option Bytes)
    (bridge_from_slice : Bytes → Option BridgeMessage) (reason_text : Refusal → Text)
    (token : Bytes) where
  -- The client knows the token, speaks the protocol and has a valid identity.
  pub record IsAdmissible (hello : BridgeHello) : Type 0 where
    pub authenticated : hello.authentication_token ≡ token
    pub current : hello.protocol_version ≡ 2
    pub valid : validate_hello hello ≡ ok tt

  abbrev accept_message : HostMessage
  accept_message = HostMessage.accept 2

  answer_admissible :
      (hello : BridgeHello)
      → length hello.authentication_token ≡ length token
      → IsAdmissible hello
      → answer_hello bridge_to_vec bridge_from_slice reason_text token hello
        ≡ (some accept_message, ok tt)
  unfolding answer_hello
  answer_admissible hello n a =
      let same = (tokens_equal_iff hello.authentication_token token n).1 a.authenticated in
      let now : (hello.protocol_version == 2) ≡ true = ground (arith, a.current) in
      rw same (rw now (rw (a.valid, answer_hello) refl))

  answer_hello-IsAdmissible :
      (hello : BridgeHello) (answer : Option HostMessage)
      → length hello.authentication_token ≡ length token
      → answer_hello bridge_to_vec bridge_from_slice reason_text token hello ≡ (answer, ok tt)
      → IsAdmissible hello × (answer ≡ some accept_message)
  unfolding answer_hello
  answer_hello-IsAdmissible hello answer n e =
      let (same, now, fine, said) =
        passed (tokens_equal hello.authentication_token token) (hello.protocol_version == 2)
          (validate_hello hello) _ _ _ _ _ e in
      (
        record {
          authenticated = (tokens_equal_iff hello.authentication_token token n).0 same;
          current = ground arith;
          valid = fine;
        },
        said,
      )

  concluded :
      (write : HostMessage → Result BridgeServerError (Unit {0}))
      (k connection : HookBridgeConnection)
      (p : Option HostMessage × Result BridgeServerError (Unit {0}))
      → conclude bridge_to_vec bridge_from_slice reason_text token write k p ≡ ok connection
      → (p ≡ (p.0, ok tt)) × (k ≡ connection) × ((m : HostMessage) → p.0 ≡ some m → write m ≡ ok tt)
  concluded write k connection (a, err x) e = cc
  concluded write k connection (a, out_of_fuel) e = cc
  concluded write k connection (none, ok u) e = (refl, ground arith, λ m q. cc)
  concluded write k connection (some m, ok u) e =
      let (v, w, r) = >>=-eq-ok (write m) _ e in
      (refl, ground arith, λ m' q. subst (λ x. write x ≡ ok tt) (ground arith) w)

  greeted :
      (write : HostMessage → Result BridgeServerError (Unit {0}))
      (connection : HookBridgeConnection) (m : BridgeMessage) (rest : Bytes)
      → length connection.hello.authentication_token ≡ length token
      → greet bridge_to_vec bridge_from_slice reason_text token write (m, rest) ≡ ok connection
      → (m ≡ BridgeMessage.hello connection.hello)
        × (rest ≡ connection.rest)
        × IsAdmissible connection.hello
        × (write accept_message ≡ ok tt)
  greeted write connection (BridgeMessage.hello h) rest n e =
      let (finished, same, wrote) =
        concluded write (record { rest = rest; hello = h }) connection
          (answer_hello bridge_to_vec bridge_from_slice reason_text token h) e in
      let said : h ≡ connection.hello = ap (λ k. k.hello) same in
      let (a, q) =
        answer_hello-IsAdmissible h
          (answer_hello bridge_to_vec bridge_from_slice reason_text token h).0 (rw said n)
          finished in
      (
        ap BridgeMessage.hello said,
        ap (λ k. k.rest) same,
        subst IsAdmissible said a,
        wrote accept_message q,
      )
  greeted write connection (BridgeMessage.candidate h) rest n e = cc
  greeted write connection (BridgeMessage.text h) rest n e = cc
  greeted write connection (BridgeMessage.replacement_result x y z) rest n e = cc
  greeted write connection (BridgeMessage.pong x) rest n e = cc
  greeted write connection (BridgeMessage.diagnostic x y) rest n e = cc

  -- A connection is accepted exactly if its first message, which arrives in time, is a hello with the
  -- token of the service, the protocol version of the service and a valid identity, and the
  -- acceptance can be written. The connection has this hello, and its stream goes on after it.
  pub accept_iff :
      (stream : Bytes) (write : HostMessage → Result BridgeServerError (Unit {0}))
      (connection : HookBridgeConnection)
      → length connection.hello.authentication_token ≡ length token
      → (accept bridge_to_vec bridge_from_slice reason_text token (some stream) write
          ≡ ok connection)
        ↔ ((read_message bridge_to_vec bridge_from_slice stream
              ≡ ok (BridgeMessage.hello connection.hello, connection.rest))
            × IsAdmissible connection.hello
            × (write accept_message ≡ ok tt))
  unfolding accept
  accept_iff stream write connection n =
      let read = read_message bridge_to_vec bridge_from_slice stream in
      (
        λ h.
            let (first, e, r) = >>=-eq-ok read _ h in
            let (m, rest, a, w) = greeted write connection first.0 first.1 n r in
            (rw e (ground (arith, m, rest)), a, w),
        λ h. rw h.0 (rw (answer_admissible connection.hello n h.1) (rw h.2 refl)),
      )
