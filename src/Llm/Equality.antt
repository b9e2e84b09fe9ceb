-- ===== src/Llm/Equality.antt =====
-- Equality of requests is symmetric and transitive where that of floats is.
use cognitive_tree_ai.Prelude.{
  ◌≡◌, ◌∙◌, refl, sym, Float, FloatOps, Bool, true, false, List, [], ◌∷◌, ◌&&◌, text_eq,
  text_eq_iff, ==_iff,
}
use cognitive_tree_ai.Llm.{Role, ChatMessage, same_role, same_messages, same_request}
use cognitive_tree_ai.Llm.Keys.{IsKeyTest}

-- The laws of `==` on floats that do not rest on reflexivity, which NaN lacks.
pub record IsFloatTest (ops : FloatOps) : Type 0 where
  pub symmetric : (a b : Float) → ops.eq a b ≡ true → ops.eq b a ≡ true
  pub transitive : (a b c : Float) → ops.eq a b ≡ true → ops.eq b c ≡ true → ops.eq a c ≡ true

and_true : (a b : Bool) → (a && b) ≡ true → (a ≡ true) × (b ≡ true)
and_true true b h = (refl, h)
and_true false b h = absurd (cc)

true_and : (a b : Bool) → a ≡ true → b ≡ true → (a && b) ≡ true
true_and a b p q = rw (p, q) refl

same_role-equal : (a b : Role) → same_role a b ≡ true → a ≡ b
unfolding same_role
same_role-equal Role.system Role.system h = refl
same_role-equal Role.user Role.user h = refl
same_role-equal Role.assistant Role.assistant h = refl
same_role-equal Role.system Role.user h = absurd (cc)
same_role-equal Role.system Role.assistant h = absurd (cc)
same_role-equal Role.user Role.system h = absurd (cc)
same_role-equal Role.user Role.assistant h = absurd (cc)
same_role-equal Role.assistant Role.system h = absurd (cc)
same_role-equal Role.assistant Role.user h = absurd (cc)

same_role_self : (a : Role) → same_role a a ≡ true
unfolding same_role
same_role_self Role.system = refl
same_role_self Role.user = refl
same_role_self Role.assistant = refl

rebuild :
    {a b : ChatMessage} {xs ys : List ChatMessage}
    → a.role ≡ b.role
    → a.content ≡ b.content
    → xs ≡ ys
    → ◌≡◌ {A = List ChatMessage} (a ∷ xs) (b ∷ ys)
rebuild p q r = λ i. record { role = p i; content = q i } ∷ r i

same_messages-equal : (xs ys : List ChatMessage) → same_messages xs ys ≡ true → xs ≡ ys
unfolding same_messages
same_messages-equal [] [] h = refl
same_messages-equal [] (y ∷ ys) h = absurd (cc)
same_messages-equal (x ∷ xs) [] h = absurd (cc)
same_messages-equal (x ∷ xs) (y ∷ ys) h =
    let (both, tails) = and_true (same_role x.role y.role && text_eq x.content y.content) _ h in
    let (roles, texts) = and_true (same_role x.role y.role) _ both in
    let role : x.role ≡ y.role = same_role-equal x.role y.role roles in
    let content : x.content ≡ y.content = (text_eq_iff x.content y.content).0 texts in
    let tail : xs ≡ ys = same_messages-equal xs ys tails in rebuild role content tail

same_messages_self : (xs : List ChatMessage) → same_messages xs xs ≡ true
unfolding same_messages
same_messages_self [] = refl
same_messages_self (x ∷ xs) =
    true_and _ _ (true_and _ _ (same_role_self x.role) ((text_eq_iff x.content x.content).1 refl))
      (same_messages_self xs)

same_messages_iff : (xs ys : List ChatMessage) → xs ≡ ys → same_messages xs ys ≡ true
same_messages_iff xs ys e = rw e (same_messages_self ys)

-- The store's key test is symmetric and transitive where the equality of floats is.
pub same_request-IsKeyTest : (ops : FloatOps) → IsFloatTest ops → IsKeyTest ops
unfolding same_request
same_request-IsKeyTest ops laws = record {
  symmetric = λ a b h.
      let (rest, n) =
        and_true (same_messages a.messages b.messages && ops.eq a.temperature b.temperature) _ h in
      let (m, t) = and_true (same_messages a.messages b.messages) _ rest in
      true_and _ _
        (true_and _ _
          (same_messages_iff b.messages a.messages
            (sym (same_messages-equal a.messages b.messages m)))
          (laws.symmetric a.temperature b.temperature t))
        ((==_iff b.max_tokens a.max_tokens).1 (sym ((==_iff a.max_tokens b.max_tokens).0 n)));
  transitive = λ a b c h k.
      let (rest, n) =
        and_true (same_messages a.messages b.messages && ops.eq a.temperature b.temperature) _ h in
      let (m, t) = and_true (same_messages a.messages b.messages) _ rest in
      let (rest', n') =
        and_true (same_messages b.messages c.messages && ops.eq b.temperature c.temperature) _ k in
      let (m', t') = and_true (same_messages b.messages c.messages) _ rest' in
      true_and _ _
        (true_and _ _
          (same_messages_iff a.messages c.messages (
            same_messages-equal a.messages b.messages m
            ∙ same_messages-equal b.messages c.messages m'))
          (laws.transitive a.temperature b.temperature c.temperature t t'))
        ((==_iff a.max_tokens c.max_tokens).1
          ((==_iff a.max_tokens b.max_tokens).0 n ∙ (==_iff b.max_tokens c.max_tokens).0 n'));
}
