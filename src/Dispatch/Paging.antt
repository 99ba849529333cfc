-- ===== src/Dispatch/Paging.antt =====
-- The page that LoadChatMsg of ChatServerShared/LogicSystem.cpp sends: as many of the loaded messages as fit
-- a frame, in their order.
use cpp_chat.Base.{
  ◌==◌, length, take, ℤ, ℕ, suc, ◌-◌, ◌≤◌, ◌<◌, ◌≡◌, ◌⊎◌, Bool, ◌&&◌, List, [], ◌∷◌,
}
use cpp_chat.Dispatch.Values.{Json}
use cpp_chat.Dispatch.Threads.{max_length, candidate_of, cut_page}

module _ (size : Json → ℕ) where
  -- The page with all messages of the list.
  abbrev pub extend : List (ℤ × Json) → Json → Json
  extend [] response = response
  extend (m ∷ more) response = extend more (candidate_of m response)

  -- The page shows the first messages of the list, as many as fit: all, or up to one that does not fit,
  -- where the page says that there is more, and that it failed if this is the first.
  pub record IsFilled (empty : Bool) (ms : List (ℤ × Json)) (response result : Json) : Type 0 where
    pub shown : ℕ
    pub within : shown ≤ length ms
    pub fits : (shown ≡ 0) ⊎ (size (extend (take shown ms) response) ≤ max_length - 16)
    pub page :
        ((shown ≡ length ms) × (result ≡ extend ms response))
        ⊎ ((max_length - 16 < size (extend (take (suc shown) ms) response))
            × (result ≡ cut_page (empty && shown == 0) (extend (take shown ms) response)))
