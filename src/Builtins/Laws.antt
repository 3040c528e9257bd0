-- ===== src/Builtins/Laws.antt =====
-- src/domain/builtins.cpp: the arithmetic of Counter and the bound of TextBuffer.
use stream_labs_test_assingm.Base.{
  ◌≤◌, ◌<◌, ◌≡◌, ◌⊎◌, inl, inr, Bool, true, false, ◌&&◌, ◌||◌, ◌++◌, ltb, arith, length,
  length-append, Bool-cases,
}
use stream_labs_test_assingm.Base.Int.{ℤ, pos, negsuc, ◌+ℤ◌, ◌-ℤ◌, ◌≤ℤ◌, ltb_ℤ, pos_part, neg_part}
use stream_labs_test_assingm.Base.Text.{Text}
use stream_labs_test_assingm.Base.Result.{ok, err}
use stream_labs_test_assingm.Base.Word.{sub64, sub64_exact}
use stream_labs_test_assingm.Contracts.{string, int64, ErrorCode, max_string_bytes}
use stream_labs_test_assingm.Validation.{make_error}
use stream_labs_test_assingm.Builtins.{
  int64_max, int64_min, counter_object, text_buffer_object, increment, append,
}

pub record IsInt64 (n : ℤ) : Type 0 where
  pub lower : int64_min ≤ℤ n
  pub upper : n ≤ℤ int64_max

-- The differences that the overflow check computes stay within int64 themselves.
pub bounds_exact :
    (delta : ℤ)
    → IsInt64 delta
    → (ltb_ℤ (pos 0) delta ≡ true → IsInt64 (int64_max -ℤ delta))
      × (ltb_ℤ delta (pos 0) ≡ true → IsInt64 (int64_min -ℤ delta))
unfolding ◌-ℤ◌
bounds_exact (pos n) d = (λ h. ground arith, λ h. ground arith)
bounds_exact (negsuc n) d = (λ h. ground arith, λ h. ground arith)

-- The test of `increment`.
abbrev pub overflows : ℤ → ℤ → Bool
overflows n delta =
    (ltb_ℤ (pos 0) delta && ltb_ℤ (int64_max -ℤ delta) n)
    || (ltb_ℤ delta (pos 0) && ltb_ℤ n (int64_min -ℤ delta))

overflows_beyond :
    (n delta : ℤ)
    → IsInt64 n
    → IsInt64 delta
    → overflows n delta ≡ true
    → (int64_max ≤ℤ n +ℤ delta × pos_part int64_max < pos_part (n +ℤ delta))
      ⊎ (neg_part int64_min < neg_part (n +ℤ delta))
unfolding ◌+ℤ◌ ◌-ℤ◌
overflows_beyond (pos m) (pos n) a b h = ground arith
overflows_beyond (pos m) (negsuc n) a b h = ground arith
overflows_beyond (negsuc m) (pos n) a b h = ground arith
overflows_beyond (negsuc m) (negsuc n) a b h = ground arith

within-IsInt64 :
    (n delta : ℤ) → IsInt64 n → IsInt64 delta → overflows n delta ≡ false → IsInt64 (n +ℤ delta)
unfolding ◌+ℤ◌ ◌-ℤ◌
within-IsInt64 (pos m) (pos n) a b h = ground arith
within-IsInt64 (pos m) (negsuc n) a b h = ground arith
within-IsInt64 (negsuc m) (pos n) a b h = ground arith
within-IsInt64 (negsuc m) (negsuc n) a b h = ground arith

beyond-IsInt64 :
    (z : ℤ)
    → (int64_max ≤ℤ z × pos_part int64_max < pos_part z) ⊎ (neg_part int64_min < neg_part z)
    → ¬ IsInt64 z
beyond-IsInt64 (pos n) h i = ground arith
beyond-IsInt64 (negsuc n) h i = ground arith

-- On int64 values `increment` adds exactly when the true sum is an int64, and otherwise reports an
-- overflow and changes nothing.
pub increment-exact :
    (n delta : ℤ)
    → IsInt64 n
    → IsInt64 delta
    → (IsInt64 (n +ℤ delta)
        × (increment n delta ≡ (counter_object (n +ℤ delta), ok (int64 (n +ℤ delta)))))
      ⊎ ((¬ IsInt64 (n +ℤ delta))
          × (increment n delta ≡ (counter_object n, err (make_error ErrorCode.numeric_overflow))))
unfolding increment
increment-exact n delta a b = elim (Bool-cases (overflows n delta)) [
  | inl over ↦ inr (beyond-IsInt64 (n +ℤ delta) (overflows_beyond n delta a b over), rw over)
  | inr fits ↦ inl (within-IsInt64 n delta a b fits, rw fits)
]

-- A buffer within the limit takes a suffix exactly when the result is within the limit, and
-- otherwise reports the limit and changes nothing.
pub append-bounded :
    (t suffix : Text)
    → length t ≤ max_string_bytes
    → ((length (t ++ suffix) ≤ max_string_bytes)
        × (append t suffix ≡ (text_buffer_object (t ++ suffix), ok (string (t ++ suffix)))))
      ⊎ ((max_string_bytes < length (t ++ suffix))
          × (append t suffix ≡ (text_buffer_object t, err (make_error ErrorCode.quota_exceeded))))
unfolding append
append-bounded t suffix h =
    let room = sub64_exact max_string_bytes (length t) (omega arith) h in
    elim (Bool-cases (ltb (sub64 max_string_bytes (length t)) (length suffix))) [
      | inl full ↦ inr (ground (arith, room, length-append t suffix), rw full)
      | inr fits ↦ inl (ground (arith, room, length-append t suffix), rw fits)
    ]
