-- ===== src/Judging/Phrases.antt =====
-- The phrase lists, the name list and the categories of src/personal_voice_msg/judging/gates.py.
use personal_voice_msg.Prelude.{List, [], ◌∷◌}
use personal_voice_msg.Prelude.Text.{Text, codes}

abbrev pub sexual_content_phrases : List Text
sexual_content_phrases =
    codes "sex"
    ∷ codes "sexy"
    ∷ codes "sexual"
    ∷ codes "naked"
    ∷ codes "nude"
    ∷ codes "seduce"
    ∷ codes "seduction"
    ∷ codes "aroused"
    ∷ codes "orgasm"
    ∷ codes "make love"
    ∷ codes "turn you on"
    ∷ []

abbrev pub possessiveness_phrases : List Text
possessiveness_phrases =
    codes "you belong to me"
    ∷ codes "belongs to me"
    ∷ codes "mine alone"
    ∷ codes "only mine"
    ∷ codes "i own you"
    ∷ codes "no one else can have you"
    ∷ codes "you are mine"
    ∷ codes "you re mine"
    ∷ []

abbrev pub manipulation_guilt_phrases : List Text
manipulation_guilt_phrases =
    codes "if you loved me"
    ∷ codes "after everything i have done for you"
    ∷ codes "after everything i ve done for you"
    ∷ codes "you never appreciate me"
    ∷ codes "you owe me"
    ∷ codes "guilt trip"
    ∷ codes "look what you made me do"
    ∷ []

abbrev pub breakup_phrases : List Text
breakup_phrases =
    codes "breaking up with you"
    ∷ codes "we are breaking up"
    ∷ codes "we re breaking up"
    ∷ codes "it is over between us"
    ∷ codes "it s over between us"
    ∷ codes "its over between us"
    ∷ codes "i do not love you anymore"
    ∷ codes "i don t love you anymore"
    ∷ codes "i dont love you anymore"
    ∷ codes "we are done"
    ∷ codes "we re done"
    ∷ codes "this relationship is over"
    ∷ []

abbrev pub proposal_commitment_phrases : List Text
proposal_commitment_phrases =
    codes "marry me"
    ∷ codes "will you marry me"
    ∷ codes "let us get married"
    ∷ codes "lets get married"
    ∷ codes "let us move in together"
    ∷ codes "lets move in together"
    ∷ codes "i want to have kids with you"
    ∷ codes "i want to have children with you"
    ∷ codes "spend the rest of my life with you"
    ∷ []

abbrev pub money_request_phrases : List Text
money_request_phrases =
    codes "send me money"
    ∷ codes "wire me money"
    ∷ codes "send money"
    ∷ codes "need cash"
    ∷ codes "pay my rent"
    ∷ codes "venmo me"
    ∷ codes "paypal me"
    ∷ codes "send me a gift card"
    ∷ codes "i need money"
    ∷ []

abbrev pub insult_phrases : List Text
insult_phrases =
    codes "you are stupid"
    ∷ codes "you re stupid"
    ∷ codes "you are worthless"
    ∷ codes "you re worthless"
    ∷ codes "you are ugly"
    ∷ codes "you re ugly"
    ∷ codes "idiot"
    ∷ codes "pathetic"
    ∷ codes "you are a loser"
    ∷ codes "you re a loser"
    ∷ []

abbrev pub fabricated_memory_phrases : List Text
fabricated_memory_phrases =
    codes "remember when we"
    ∷ codes "remember that time we"
    ∷ codes "remember our trip to"
    ∷ codes "that day we"
    ∷ codes "our trip to"
    ∷ codes "the night we met"
    ∷ codes "the day we met"
    ∷ codes "last summer when we"
    ∷ codes "back when we"
    ∷ codes "on our anniversary we"
    ∷ []

abbrev pub excessive_intensity_phrases : List Text
excessive_intensity_phrases =
    codes "more than anything in the universe"
    ∷ codes "forever and ever and ever"
    ∷ codes "i would die without you"
    ∷ codes "i cannot live without you"
    ∷ codes "i can not live without you"
    ∷ codes "i can t live without you"
    ∷ codes "you are my entire universe"
    ∷ codes "the only reason i breathe"
    ∷ []

abbrev pub prompt_injection_phrases : List Text
prompt_injection_phrases =
    codes "ignore previous instructions"
    ∷ codes "ignore all previous instructions"
    ∷ codes "disregard the above"
    ∷ codes "disregard previous instructions"
    ∷ codes "you are now"
    ∷ codes "act as if you are"
    ∷ codes "reveal your system prompt"
    ∷ codes "reveal your instructions"
    ∷ codes "print your prompt"
    ∷ codes "new instructions"
    ∷ codes "system prompt"
    ∷ []

unfoldable pub stranger_name_tokens : List Text
stranger_name_tokens =
    codes "james"
    ∷ codes "john"
    ∷ codes "robert"
    ∷ codes "michael"
    ∷ codes "david"
    ∷ codes "william"
    ∷ codes "richard"
    ∷ codes "joseph"
    ∷ codes "thomas"
    ∷ codes "daniel"
    ∷ codes "mark"
    ∷ codes "paul"
    ∷ codes "steven"
    ∷ codes "andrew"
    ∷ codes "kevin"
    ∷ codes "brian"
    ∷ codes "mary"
    ∷ codes "patricia"
    ∷ codes "jennifer"
    ∷ codes "linda"
    ∷ codes "elizabeth"
    ∷ codes "susan"
    ∷ codes "jessica"
    ∷ codes "sarah"
    ∷ codes "karen"
    ∷ codes "nancy"
    ∷ codes "lisa"
    ∷ codes "emily"
    ∷ codes "amanda"
    ∷ codes "melissa"
    ∷ codes "ashley"
    ∷ codes "rachel"
    ∷ codes "michelle"
    ∷ codes "laura"
    ∷ codes "kimberly"
    ∷ codes "amy"
    ∷ codes "angela"
    ∷ codes "stephanie"
    ∷ codes "priya"
    ∷ codes "carlos"
    ∷ codes "wei"
    ∷ codes "fatima"
    ∷ []

unfoldable pub phrase_categories : List (Text × List Text)
phrase_categories =
    (codes "sexual_content", sexual_content_phrases)
    ∷ (codes "possessiveness", possessiveness_phrases)
    ∷ (codes "manipulation_guilt", manipulation_guilt_phrases)
    ∷ (codes "breakup_language", breakup_phrases)
    ∷ (codes "proposal_or_commitment", proposal_commitment_phrases)
    ∷ (codes "money_request", money_request_phrases)
    ∷ (codes "insult", insult_phrases)
    ∷ (codes "fabricated_memory", fabricated_memory_phrases)
    ∷ (codes "excessive_emotional_intensity", excessive_intensity_phrases)
    ∷ (codes "prompt_injection", prompt_injection_phrases)
    ∷ []
