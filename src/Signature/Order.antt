-- ===== src/Signature/Order.antt =====
-- crates/terratranslate-core/src/replay.rs: the comparison of entries is a total order.
use terra_translate.Base.{
  Text, text_cmp_self, text_cmp-eq, text_cmp-gt, text_cmp-lt, text_cmp_trans, Ordering, ◌≡◌, arith,
}
use terra_translate.Signature.{entry_cmp}

pub entry_cmp_self : (a : Text × Text) → entry_cmp a a ≡ Ordering.eq
unfolding entry_cmp
entry_cmp_self a = ground (arith, text_cmp_self a.0, text_cmp_self a.1)

pub entry_cmp-eq : (a b : Text × Text) → entry_cmp a b ≡ Ordering.eq → a ≡ b
unfolding entry_cmp
entry_cmp-eq a b h = ground (arith, text_cmp-eq a.0 b.0, text_cmp-eq a.1 b.1)

pub entry_cmp-gt : (a b : Text × Text) → entry_cmp a b ≡ Ordering.gt → entry_cmp b a ≡ Ordering.lt
unfolding entry_cmp
entry_cmp-gt a b h =
    ground (arith, text_cmp-gt a.0 b.0, text_cmp-gt a.1 b.1, text_cmp-eq a.0 b.0, text_cmp_self a.0)

pub entry_cmp-lt : (a b : Text × Text) → entry_cmp a b ≡ Ordering.lt → entry_cmp b a ≡ Ordering.gt
unfolding entry_cmp
entry_cmp-lt a b h =
    ground (arith, text_cmp-lt a.0 b.0, text_cmp-lt a.1 b.1, text_cmp-eq a.0 b.0, text_cmp_self a.0)

pub entry_cmp_trans :
    (a b c : Text × Text)
    → entry_cmp a b ≡ Ordering.lt
    → entry_cmp b c ≡ Ordering.lt
    → entry_cmp a c ≡ Ordering.lt
unfolding entry_cmp
entry_cmp_trans a b c h k = ground (
  arith,
  text_cmp_trans a.0 b.0 c.0,
  text_cmp_trans a.1 b.1 c.1,
  text_cmp-eq a.0 b.0,
  text_cmp-eq b.0 c.0,
)
