-- ===== src/Store/Products.antt =====
-- `STORE_PRODUCTS`: what the shop sells.
use crm_silmer.Base.{Table, ℕ, String, none, some, [], ◌∷◌}
use crm_silmer.Orders.{Text, codes}
use crm_silmer.Store.{StoreColor, StoreProduct}

abbrev pub size_table : Table Text
size_table =
    ("eg", codes "EG")
    ∷ ("g", codes "G")
    ∷ ("gg", codes "GG")
    ∷ ("jeg", codes "JEGÃO")
    ∷ ("m", codes "M")
    ∷ ("p", codes "P")
    ∷ ("pp", codes "PP")
    ∷ ("xg", codes "XG")
    ∷ ("xx", codes "XX")
    ∷ []

abbrev plain : String → ℕ → StoreColor
plain nome prazo = record { nome = codes nome; prazo_dias_uteis = prazo; estampa = none }

abbrev with_print : String → String → StoreColor
with_print nome estampa = record {
  nome = codes nome;
  prazo_dias_uteis = 1;
  estampa = some (codes estampa);
}

-- A shirt of the collection; one to ten pieces.
abbrev collection : String → String → ℕ → Table StoreColor → StoreProduct
collection slug nome preco cores = record {
  slug = slug;
  nome = codes nome;
  tipo = codes "Camiseta";
  publico = codes "masculino";
  malha = codes "Dry fit liso de poliéster";
  gola = codes "Gola redonda";
  preco_centavos = preco;
  preco_teste_centavos = 100;
  pecas_por_kit = 1;
  quantidade_maxima = some 10;
  cores = cores;
  tamanhos = size_table;
}

abbrev plain_shirt : StoreProduct
plain_shirt = record {
  slug = "camisa-masculina-lisa";
  nome = codes "Camisa Masculina Lisa Dry Fit";
  tipo = codes "Camiseta";
  publico = codes "masculino";
  malha = codes "Dry fit liso de poliéster";
  gola = codes "Gola redonda";
  preco_centavos = 18000;
  preco_teste_centavos = 100;
  pecas_por_kit = 10;
  quantidade_maxima = none;
  cores =
      ("branca", plain "Branco" 0)
      ∷ ("chumbo", plain "Grafite/chumbo" 10)
      ∷ ("preta", plain "Preto" 10)
      ∷ [];
  tamanhos = size_table;
}

abbrev pub store_products : Table StoreProduct
store_products =
    ("camisa-masculina-lisa", plain_shirt)
    ∷ (
      "bloquinho-22",
      collection "bloquinho-22" "Bloquinho 22" 3000 (
          ("branca-amarela", with_print "Branco" "Bloquinho 22 — amarela")
          ∷ ("branca-rosa", with_print "Branco" "Bloquinho 22 — rosa")
          ∷ ("branca-azul", with_print "Branco" "Bloquinho 22 — azul")
          ∷ ("branca-preta", with_print "Branco" "Bloquinho 22 — preta")
          ∷ ("branca-verde", with_print "Branco" "Bloquinho 22 — verde")
          ∷ []),
    )
    ∷ (
      "bloquinho-22-completa",
      collection "bloquinho-22-completa" "Camisa Bloquinho 22 Completa" 4500
          (("verde-amarela", with_print "Verde-bandeira/Amarelo" "Bloquinho 22 Completa") ∷ []),
    )
    ∷ (
      "bloquinho-22-colorido",
      collection "bloquinho-22-colorido" "Bloquinho 22 Colorido" 3000 (
          ("amarela", with_print "Amarelo" "Bloquinho 22")
          ∷ ("azul-clara", with_print "Azul-celeste" "Bloquinho 22")
          ∷ ("preta", with_print "Preto" "Bloquinho 22")
          ∷ ("rosa-clara", with_print "Rosa-claro" "Bloquinho 22")
          ∷ ("pink", with_print "Pink/magenta" "Bloquinho 22")
          ∷ ("verde", with_print "Verde-bandeira" "Bloquinho 22")
          ∷ []),
    )
    ∷ []
