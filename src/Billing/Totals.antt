-- ===== src/Billing/Totals.antt =====
-- The amounts that a checkout (src/services/billingService.ts) stores.
use backend_v.Prelude.{ℕ, ◌+◌, ◌*◌, ◌%◌, ◌≡◌, refl, sym, ap, ◌∙◌, List, [], ◌∷◌, arith, All}
use backend_v.Prelude.Int.{ℤ, pos, negsuc, negate, ◌+ℤ◌, ◌-ℤ◌, ◌*ℤ◌, ◌≤ℤ◌, int_laws, eq_of_parts}
use backend_v.Billing.Input.{CheckoutInput}
use backend_v.Billing.Prepare.{prepare, Prepared, CheckedPayment, ResolvedItem, subtotal_from}
use backend_v.Billing.Record.{payment_rows, bill_items}
use backend_v.Billing.Settlement.{Settled, paid_amount, prepare-Settled}
use backend_v.Errors.{ok}
use backend_v.Money.{Money, paisa, zero_money, add, mul, round2, round_half_up, equals_money}
use backend_v.Money.Rounding.{IsPaise, add_lem, IsPaise-round2, round2-IsPaise, round2-pos}
use backend_v.Store.Schema.{Db, BillItem, Payment}

-- The sum of the amounts on the stored payments, and of the totals on the stored lines.
unfoldable pub stored_amount : List Payment → ℤ
stored_amount [] = pos 0
stored_amount (p ∷ ps) = p.amount +ℤ stored_amount ps

unfoldable pub line_sum : List BillItem → ℤ
line_sum [] = pos 0
line_sum (it ∷ items) = it.line_total +ℤ line_sum items

abbrev pub HasWholeAmounts : List CheckedPayment → Type 0
HasWholeAmounts ps = All (λ p. IsPaise p.payment.amount) ps

IsPaise-add : (a b : Money) → IsPaise a → IsPaise b → IsPaise (a +ℤ b)
IsPaise-add a b (k, e) (l, f) = (k + l, rw (e, f) (omega int_laws))

paid_amount-IsPaise : (ps : List CheckedPayment) → HasWholeAmounts ps → IsPaise (paid_amount ps)
unfolding paid_amount
paid_amount-IsPaise [] h = (0, refl)
paid_amount-IsPaise (p ∷ ps) h = IsPaise-add _ _ h.0 (paid_amount-IsPaise ps h.1)

stored_amount-payment_rows :
    (ps : List CheckedPayment)
    → HasWholeAmounts ps
    → stored_amount (payment_rows ps) ≡ paid_amount ps
unfolding stored_amount payment_rows paid_amount
stored_amount-payment_rows [] h = refl
stored_amount-payment_rows (p ∷ ps) h =
    ap (λ a. a +ℤ stored_amount (payment_rows ps)) (round2-IsPaise p.payment.amount h.0)
    ∙ ap (λ s. p.payment.amount +ℤ s) (stored_amount-payment_rows ps h.1)

round2-negate : (m : ℕ) → round2 (negate (pos m)) ≡ negate (pos (round_half_up m))
unfolding round2 negate
round2-negate ℕ.zero = refl
round2-negate (ℕ.suc m) = let e : negate (pos (ℕ.suc m)) ≡ negsuc m = omega int_laws in ap round2 e

round2-round2 : (a : Money) → round2 (round2 a) ≡ round2 a
unfolding round2 negate
round2-round2 (pos n) = round2-IsPaise _ (IsPaise-round2 n)
round2-round2 (negsuc n) =
    round2-negate (round_half_up (ℕ.suc n)) ∙ ap (λ m. negate (pos m)) (omega arith)

sub_add_zero : (a : ℤ) → a -ℤ zero_money +ℤ zero_money ≡ a
sub_add_zero a = omega int_laws

-- Where every payment is a whole number of paise, the stored payments add up to the stored total.
pub stored_amount-Settled :
    (i : CheckoutInput) (p : Prepared) (d : Db)
    → Settled i p d
    → HasWholeAmounts p.payments
    → stored_amount (payment_rows p.payments) ≡ p.grand_total
unfolding equals_money
stored_amount-Settled i p d s whole =
    let sum = paid_amount-IsPaise p.payments whole in
    let total : round2 p.grand_total ≡ p.grand_total = rw s.grand_total_is (round2-round2 _) in
    let equal : round2 (paid_amount p.payments) ≡ round2 p.grand_total =
      eq_of_parts _ _ (ground (arith, s.balanced)) in
    stored_amount-payment_rows p.payments whole ∙ sym (round2-IsPaise _ sum) ∙ equal ∙ total

-- Where the checks of a checkout let two payments through that each end in exactly half a paisa, the
-- payments add up to the total, and what is stored of them adds up to one paisa more.
pub stored_amount-tie :
    (i : CheckoutInput) (p : Prepared) (d d' : Db) (x y : CheckedPayment) (a b : ℕ)
    → prepare i d ≡ (ok p, d')
    → p.payments ≡ x ∷ y ∷ []
    → x.payment.amount ≡ pos a
    → y.payment.amount ≡ pos b
    → a % paisa ≡ 500_000
    → b % paisa ≡ 500_000
    → (pos a +ℤ pos b ≡ p.grand_total)
      × (stored_amount (payment_rows p.payments) ≡ p.grand_total +ℤ pos paisa)
unfolding equals_money stored_amount payment_rows paid_amount
stored_amount-tie i p d d' x y a b prepared two is_a is_b tie_a tie_b =
    let s = prepare-Settled i d p d' prepared in
    let total : round2 p.grand_total ≡ p.grand_total = rw s.grand_total_is (round2-round2 _) in
    let equal : round2 (paid_amount p.payments) ≡ round2 p.grand_total =
      eq_of_parts _ _ (ground (arith, s.balanced)) in
    let sum : paid_amount p.payments ≡ pos (a + b) =
      ap paid_amount two ∙ grind (int_laws, is_a, is_b) in
    let stored : stored_amount (payment_rows p.payments)
        ≡ pos (round_half_up a) +ℤ pos (round_half_up b) =
      ap (λ ps. stored_amount (payment_rows ps)) two
      ∙ grind (int_laws, ap round2 is_a, ap round2 is_b, round2-pos a, round2-pos b) in
    let rounded : p.grand_total ≡ pos (round_half_up (a + b)) =
      sym total ∙ sym equal ∙ ap round2 sum ∙ round2-pos (a + b) in
    (
      rw rounded (omega (int_laws, tie_a, tie_b)),
      stored ∙ rw rounded (omega (int_laws, tie_a, tie_b)),
    )

-- Every line has a price in whole paise and a quantity that is not negative.
abbrev pub HasWholeLines : List ResolvedItem → Type 0
HasWholeLines rs = All (λ r. IsPaise r.unit_price × (pos 0 ≤ℤ r.quantity)) rs

mul-IsPaise : (a : Money) (q : ℤ) → IsPaise a → pos 0 ≤ℤ q → IsPaise (mul a q)
unfolding mul ◌*ℤ◌
mul-IsPaise a (pos n) (k, e) h = (k * n, rw e (ground arith))
mul-IsPaise a (negsuc n) (k, e) h = absurd (omega arith)

subtotal_from-bill_items :
    (sum : Money) (rs : List ResolvedItem)
    → HasWholeLines rs
    → subtotal_from sum rs ≡ sum +ℤ line_sum (bill_items rs)
unfolding subtotal_from line_sum bill_items
subtotal_from-bill_items sum [] h = omega int_laws
subtotal_from-bill_items sum (r ∷ rs) h = grind (
  int_laws,
  subtotal_from-bill_items (add sum (mul r.unit_price r.quantity)) rs h.1,
  add_lem sum (mul r.unit_price r.quantity),
  round2-IsPaise (mul r.unit_price r.quantity) (mul-IsPaise r.unit_price r.quantity h.0.0 h.0.1),
)

line_sum-IsPaise : (rs : List ResolvedItem) → HasWholeLines rs → IsPaise (line_sum (bill_items rs))
unfolding line_sum bill_items
line_sum-IsPaise [] h = (0, refl)
line_sum-IsPaise (r ∷ rs) h =
    let product = mul-IsPaise r.unit_price r.quantity h.0.0 h.0.1 in
    IsPaise-add _ _ (rw (round2-IsPaise (mul r.unit_price r.quantity) product) product)
      (line_sum-IsPaise rs h.1)

-- The totals of the stored lines add up to the stored total.
pub line_sum-Settled :
    (i : CheckoutInput) (p : Prepared) (d : Db)
    → Settled i p d
    → HasWholeLines p.lines
    → line_sum (bill_items p.lines) ≡ p.grand_total
line_sum-Settled i p d s whole =
    let sum = line_sum-IsPaise p.lines whole in
    let lines : subtotal_from zero_money p.lines ≡ line_sum (bill_items p.lines) =
      subtotal_from-bill_items zero_money p.lines whole ∙ omega int_laws in
    let subtotal : p.subtotal ≡ line_sum (bill_items p.lines) =
      s.subtotal_is ∙ ap round2 lines ∙ round2-IsPaise _ sum in
    sym (
      s.grand_total_is
      ∙ ap round2 (sub_add_zero p.subtotal)
      ∙ ap round2 subtotal
      ∙ round2-IsPaise _ sum)
