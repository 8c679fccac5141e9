-- ===== src/Render.antt =====
-- client/opengl/glrender.cpp and client/opengl/glrender.hpp: the class `GlRender`. Its state is the map
-- `m_drawables`.
pub mod Scene
use quintses.Common.{ℕ, Option, none, some, List, [], ◌∷◌, if◌then◌else◌}
use quintses.Common.Map.{Map, lookup, assign, insert, erase}
use quintses.Common.Text.{text_eq}
use quintses.Messages.Server.{Matrix, Text}
use quintses.Messages.Client.{ClientMsg, add_drawable, trans_drawable, del_drawable}
use quintses.Server.{player}

-- `m_color`, whose components are 0.f or 1.f.
pub record Color : Type 0 where
  pub red : ℕ
  pub green : ℕ
  pub blue : ℕ

pub record GlDrawable : Type 0 where
  pub color : Color
  pub matrix : Matrix

-- "Baddie"
abbrev pub baddie : Text
baddie = b'B' ∷ b'a' ∷ b'd' ∷ b'd' ∷ b'i' ∷ b'e' ∷ []

-- The color of a new drawable by its template.
abbrev pub template_color : Text → Color
template_color t =
    if text_eq t player
    then record { red = 0; green = 1; blue = 0 }
    else if text_eq t baddie
    then record { red = 1; green = 0; blue = 0 }
    else record { red = 1; green = 1; blue = 1 }

-- `pushMessage`. A new drawable has its `m_matrix` as the memory is: `garbage`.
unfoldable pub push_message : Matrix → ClientMsg → Map GlDrawable → Map GlDrawable
push_message garbage (add_drawable id t) scene = elim (lookup id scene) [
  | none ↦ insert id (record { color = template_color t; matrix = garbage }) scene
  | some drawable ↦ scene
]
push_message garbage (trans_drawable id m) scene = elim (lookup id scene) [
  | none ↦ scene
  | some drawable ↦ assign id (record drawable { matrix = m }) scene
]
push_message garbage (del_drawable id) scene = erase id scene
push_message garbage msg scene = scene

-- The calls of OpenGL that depend on the scene; each triangle has the same three vertices.
pub data GlCall : Type 0 where
  clear triangle : GlCall
  load_matrix : Matrix → GlCall
  set_color : Color → GlCall

-- The loop of `draw`.
unfoldable pub draw_all : Map GlDrawable → List GlCall
draw_all [] = []
draw_all ((id, drawable) ∷ scene) =
    load_matrix drawable.matrix ∷ set_color drawable.color ∷ triangle ∷ draw_all scene

unfoldable pub draw : Map GlDrawable → List GlCall
unfolding draw_all
draw scene = clear ∷ draw_all scene
