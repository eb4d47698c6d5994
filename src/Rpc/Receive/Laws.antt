-- ===== src/Rpc/Receive/Laws.antt =====
-- src/rpc.c: what `rpc_recv_plist` does with a message, and the answer that it gives.
use Prim.Native.String.{String}
use ios_webkit_debug_proxy.Prelude.{
  ℕ, ◌≡◌, ◌≢◌, ◌⊎◌, refl, inl, inr, ◌||◌, Bool-cases, Option, some, none, List, [], ◌∷◌,
  equal_texts, equal_texts_iff, texts-ne, if◌then◌else◌,
}
use ios_webkit_debug_proxy.Prelude.Status.{Status, success, error}
use ios_webkit_debug_proxy.Rpc.{RpcApi, item, string_of}
use ios_webkit_debug_proxy.Rpc.Receive.{
  Callbacks, args_to_xml, reject, handled, recv_msg, recv_plist,
}
use ios_webkit_debug_proxy.Rpc.Receive.Reactions.{
  Refused, unknown, Reaction, ignored, refused, Reported, no_args, with_xml, no_xml, setup-Reaction,
  app_list-Reaction, connected-Reaction, disconnected-Reaction, listing-Reaction, sent-Reaction,
  application_updated-Reaction,
}

module _ (api : RpcApi) (strtol : String → ℕ) {W : Type 0} (calls : Callbacks W) where
  open api use {Plist}

  -- A reaction that succeeds is the answer; one that fails is reported, and the answer is an error.
  abbrev pub Follows : Option Plist → String → Status × W → Status × W → Type 0
  Follows args s r answer =
      ((r.0 ≡ success) × (answer ≡ r))
      ⊎ ((r.0 ≡ error) × (answer.0 ≡ error) × Reported api strtol calls r.1 args s answer.1)

  -- Without a selector nothing is called and nothing is reported.
  abbrev pub Answers : W → Option Plist → Option String → Status × W → Type 0
  Answers w args selector answer =
      ((selector ≡ none) × (answer ≡ (error, w)))
      ⊎ ((s : String) × (r : Status × W) × (selector ≡ some s)
          × Reaction api strtol calls w args s r
          × Follows args s r answer)

  xml-cases :
      (xml : Option (List ℕ))
      → (xml ≡ none) ⊎ ((xml ≡ some []) ⊎ ((c : ℕ) × (cs : List ℕ) × (xml ≡ some (c ∷ cs))))
  xml-cases none = inl refl
  xml-cases (some []) = inr (inl refl)
  xml-cases (some (c ∷ cs)) = inr (inr (c, cs, refl))

  reject-Reported :
      (w : W) (s : String) (args : Option Plist)
      → ((reject api strtol calls w s args).0 ≡ error)
        × Reported api strtol calls w args s (reject api strtol calls w s args).1
  unfolding reject args_to_xml
  reject-Reported w s none = (refl, no_args refl)
  reject-Reported w s (some p) = elim (xml-cases (api.to_xml p)) [
    | inl e ↦ rw (e, reject, args_to_xml) (refl, no_xml p none refl (inl refl) e)
    | inr (inl e) ↦ rw (e, reject, args_to_xml) (refl, no_xml p (some []) refl (inr refl) e)
    | inr (inr (c, cs, e)) ↦ rw (e, reject, args_to_xml) (refl, with_xml p c cs refl e)
  ]

  handled-Follows :
      (args : Option Plist) (s : String) (r : Status × W)
      → Follows args s r (handled api strtol calls r s args)
  handled-Follows args s (success, w) = inl (refl, refl)
  handled-Follows args s (error, w) =
      let (fails, report) = reject-Reported w s args in inr (refl, fails, report)

  module _ (w : W) (args : Option Plist) (s : String) where
    answered :
        (r : Status × W)
        → Reaction api strtol calls w args s r
        → Answers w args (some s) (handled api strtol calls r s args)
    answered r reaction = inr (s, r, refl, reaction, handled-Follows args s r)

    choose :
        (key : String) (x y : Status × W)
        → (s ≡ key → Answers w args (some s) x)
        → (s ≢ key → Answers w args (some s) y)
        → Answers w args (some s) (if equal_texts s key then x else y)
    choose key x y is isnt = elim (Bool-cases (equal_texts s key)) [
      | inl e ↦ rw e (is ((equal_texts_iff s key).0 e))
      | inr e ↦ rw e (isnt (texts-ne s key e))
    ]

    -- The two messages that are ignored, and a selector that is not known.
    rest_of :
        (s ≢ "_rpc_reportConnectedDriverList:"
          → s ≢ "_rpc_reportCurrentState:"
          → Refused api strtol calls args s)
        → Answers w args (some s) (
            if equal_texts s "_rpc_reportConnectedDriverList:"
              || equal_texts s "_rpc_reportCurrentState:"
            then (success, w)
            else reject api strtol calls w s args)
    rest_of refusal =
        let driver : String = "_rpc_reportConnectedDriverList:" in
        let state : String = "_rpc_reportCurrentState:" in
        elim (Bool-cases (equal_texts s driver)) [
          | inl e ↦ rw e (answered (success, w) (ignored (inl ((equal_texts_iff s driver).0 e))))
          | inr d ↦ elim (Bool-cases (equal_texts s state)) [
            | inl e ↦
                rw (d, e) (answered (success, w) (ignored (inr ((equal_texts_iff s state).0 e))))
            | inr e ↦
                rw (d, e)
                  (answered (error, w)
                    (refused (refusal (texts-ne s driver d) (texts-ne s state e))))
          ]
        ]

    recv_msg-Answers : Answers w args (some s) (recv_msg api strtol calls w (some s) args)
    unfolding recv_msg
    recv_msg-Answers =
        choose _ _ _ (λ e. answered _ (setup-Reaction api strtol calls w args s e))
          (λ n1.
            choose _ _ _ (λ e. answered _ (app_list-Reaction api strtol calls w args s e))
              (λ n2.
                choose _ _ _ (λ e. answered _ (connected-Reaction api strtol calls w args s e))
                  (λ n3.
                    choose _ _ _
                      (λ e. answered _ (disconnected-Reaction api strtol calls w args s e))
                      (λ n4.
                        choose _ _ _
                          (λ e. answered _ (listing-Reaction api strtol calls w args s e))
                          (λ n5.
                            choose _ _ _
                              (λ e. answered _ (sent-Reaction api strtol calls w args s e))
                              (λ n6.
                                choose _ _ _
                                  (λ e.
                                    answered _
                                      (application_updated-Reaction api strtol calls w args s e))
                                  (λ n7.
                                    rest_of (λ n8 n9. unknown n1 n2 n3 n4 n5 n6 n7 n8 n9))))))))

  recv_msg-Answers_option :
      (w : W) (args : Option Plist) (selector : Option String)
      → Answers w args selector (recv_msg api strtol calls w selector args)
  unfolding recv_msg
  recv_msg-Answers_option w args none = inl (refl, refl)
  recv_msg-Answers_option w args (some s) = recv_msg-Answers w args s

  -- Whatever dictionary `rpc_recv_plist` is given, its answer is settled by the selector and the
  -- arguments: the one callback that they ask for is called once, or none if the message is ignored
  -- or refused (its selector is unknown, or an item that it needs is missing). With success nothing
  -- else is done; a failure, be it the callback's or a refusal, is reported, and the answer is an
  -- error. Without a selector the answer is an error, and nothing is called or reported.
  pub recv_plist_lem :
      (w : W) (rpc_dict : Option Plist)
      → Answers w
          (item api rpc_dict "__argument")
          (string_of api (item api rpc_dict "__selector"))
          (recv_plist api strtol calls w rpc_dict)
  unfolding recv_plist
  recv_plist_lem w rpc_dict =
      recv_msg-Answers_option w (item api rpc_dict "__argument")
        (string_of api (item api rpc_dict "__selector"))
